-- ===== src/Snappy/Batches.antt =====
-- Batches of the compressed database.
use mantlemint.Prelude.{
  ◌≡◌, refl, ◌∙◌, ap, Option, some, none, List, [], ◌∷◌, ok, Exec, arith, map, All, length, ltb,
  true,
}
use mantlemint.Bytes.{Bytes}
use mantlemint.Tmdb.{Op, last_op, overlay}
use mantlemint.Tmdb.Session.{Session, IsReliable}
use mantlemint.Snappy.{
  Codec, IsCodec, CompatMode, get, new_batch, batch_set, batch_delete, batch_write,
}

module _ (c : Codec) (x : Session) where
  put : x.State → Bytes → Option Bytes → Exec x.Batch Unit
  put s key none = batch_delete c x.db s key
  put s key (some v) = batch_set c x.db s key v

  -- the writes of a batch, the newest first, in a new batch, whatever errors they return
  unfoldable pub put_all : x.State → List Op → x.Batch
  unfolding put
  put_all s [] = new_batch c x.db s
  put_all s (op ∷ older) = (put s op.key op.value (put_all s older)).1

  abbrev encoded_value : Option Bytes → Option Bytes
  encoded_value none = none
  encoded_value (some v) = some (c.encode v)

  abbrev encoded : Op → Op
  encoded op = record op { value = encoded_value op.value }

  -- the session after the batch is written
  unfoldable pub written : x.State → List Op → x.State
  written s ops = (batch_write c x.db (put_all s ops) s).1

  abbrev pub HasByte : Op → Type 0
  HasByte op = ltb 0 (length op.key) ≡ true

  module _ (r : IsReliable x) (s : x.State) where
    put_pending :
        (key : Bytes) (o : Option Bytes) (w : x.Batch)
        → ltb 0 (length key) ≡ true
        → r.pending (put s key o w).1 ≡ encoded (record { key = key; value = o }) ∷ r.pending w
    unfolding put batch_set batch_delete
    put_pending [] o w h = absurd (ground arith)
    put_pending (b ∷ k) none w h = r.batch_delete_pending s b k w
    put_pending (b ∷ k) (some v) w h = r.batch_set_pending s b k (c.encode v) w

    put_all_pending :
        (ops : List Op) → All HasByte ops → r.pending (put_all s ops) ≡ map encoded ops
    unfolding put_all new_batch
    put_all_pending [] h = r.new_batch_pending s
    put_all_pending (op ∷ older) h =
        put_pending op.key op.value (put_all s older) h.0
        ∙ ap (λ l. encoded op ∷ l) (put_all_pending older h.1)

    last_op-encoded :
        (ops : List Op) (k : Bytes) (o : Option Bytes)
        → last_op ops k ≡ some o
        → last_op (map encoded ops) k ≡ some (encoded_value o)
    unfolding last_op
    last_op-encoded [] k o h = cc
    last_op-encoded (op ∷ older) k o h = ground (arith, last_op-encoded older k o)

    view-written :
        (ops : List Op) (k : Bytes) (o : Option Bytes)
        → All HasByte ops
        → last_op ops k ≡ some o
        → r.view (written s ops) k ≡ encoded_value o
    unfolding written batch_write overlay
    view-written ops k o h last =
        let e = put_all_pending ops h in
        r.batch_write_view (put_all s ops) s k ∙ rw (e, overlay, last_op-encoded ops k o last) refl

    -- The writes of a batch are written to a session that does not fail. Then Get of a key with a byte,
    -- in both modes, returns what the newest write of the key gave it, or nothing if that deleted it.
    pub get-written :
        (codec : IsCodec c) (mode : CompatMode) (ops : List Op) (b : _) (k : Bytes)
        (o : Option Bytes)
        → All HasByte ops
        → last_op ops (b ∷ k) ≡ some o
        → get c x.db mode (b ∷ k) (written s ops) ≡ (ok o, written s ops)
    unfolding get
    get-written codec mode ops b k none h last =
        rw (r.get_ok (written s ops) b k, view-written ops (b ∷ k) none h last) refl
    get-written codec mode ops b k (some v) h last =
        rw (r.get_ok (written s ops) b k, view-written ops (b ∷ k) (some v) h last, codec v) refl
