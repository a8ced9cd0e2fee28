-- ===== src/Snappy/Tests.antt =====
-- A codec that puts a byte before the value, over the session in memory.
use mantlemint.Prelude.{
  zero, ◌≡◌, refl, true, false, some, none, List, [], ◌∷◌, Result, ok, err, io,
}
use mantlemint.Bytes.{Bytes, bytes_eq}
use mantlemint.Tmdb.{Op, last_op}
use mantlemint.Tmdb.Memory.{memory, memory_db, memory_reliable}
use mantlemint.Snappy.{Codec, IsCodec, compat_enabled, get}
use mantlemint.Snappy.Batches.{written, get-written}

abbrev unmark : Bytes → Result Bytes
unmark (zero ∷ v) = ok v
unmark _ = err (io 1)

abbrev marked : Codec
marked = record {
  encode = λ v. 0 ∷ v;
  decode = unmark;
  json_valid = λ v. elim v [ [] ↦ false | _ ∷ _ ↦ true ];
}

marked-IsCodec : IsCodec marked
marked-IsCodec v = refl

abbrev two_writes : List Op
two_writes =
    record { key = 2 ∷ []; value = none } ∷ record { key = 1 ∷ []; value = some (6 ∷ []) } ∷ []

get-written_example :
    get marked memory_db compat_enabled (1 ∷ []) (written marked memory [] two_writes)
    ≡ (ok (some (6 ∷ [])), written marked memory [] two_writes)
unfolding last_op bytes_eq
get-written_example =
    get-written marked memory memory_reliable [] marked-IsCodec compat_enabled two_writes 1 []
      (some (6 ∷ [])) (refl, (refl, tt)) refl
