-- ===== src/Db/Buffer.antt =====
-- `strbuf_t` of src/infra/persistence/db_sqlite.c. `text` is what `buf` holds in front of the NUL, so
-- `len` is its length; `size_t` is 64 bits wide. `alloc n` is whether `malloc` or `realloc` gets `n`
-- bytes.
pub mod Growth
use telemetry_testbed.Base.{
  ℕ, zero, suc, ◌+◌, ◌*◌, ◌%◌, ◌^◌, ◌==◌, ltb, leb, if◌then◌else◌, List, [], ◌++◌, Option, none,
  some, Bool, ◌||◌, length,
}

pub record StrBuf : Type 0 where
  pub text : List ℕ
  pub cap : ℕ

abbrev pub fresh : StrBuf
fresh = record { text = []; cap = 0 }

-- `while (ncap < need) ncap *= 2;`, which for a `need` of at most 2 ^ 63 takes 63 rounds at most.
unfoldable pub grow : ℕ → ℕ → ℕ → ℕ
grow zero need ncap = ncap
grow (suc fuel) need ncap =
    let more = grow fuel need (ncap * 2 % 2 ^ 64) in if ltb ncap need then more else ncap

module _ (alloc : ℕ → Bool) where
  unfoldable pub sb_reserve : StrBuf → ℕ → Option StrBuf
  unfolding grow
  sb_reserve sb extra =
      let need = length sb.text + extra + 1 in
      let ncap = grow 64 need (if sb.cap == 0 then 1024 else sb.cap) in
      if leb need sb.cap
      then some sb
      else if alloc ncap
      then some (record sb { cap = ncap })
      else none

  -- `none` is -1, with the buffer unchanged.
  unfoldable pub sb_append : StrBuf → List ℕ → Option StrBuf
  sb_append sb s = elim (sb_reserve sb (length s)) [
    | none ↦ none
    | some r ↦ some (record r { text = r.text ++ s })
  ]

  -- The text that the format makes is built on the stack if it is short, else on the heap.
  unfoldable pub sb_appendf : StrBuf → List ℕ → Option StrBuf
  sb_appendf sb s = if ltb (length s) 512 || alloc (length s + 1) then sb_append sb s else none
