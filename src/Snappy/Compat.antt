-- ===== src/Snappy/Compat.antt =====
-- What Get returns of values that Set wrote, of values from before compression, and of others.
use mantlemint.Prelude.{◌≡◌, refl, false, some, ok, err, unknown_data, arith}
use mantlemint.Bytes.{Bytes}
use mantlemint.Tmdb.{TmDb}
use mantlemint.Snappy.{Codec, IsCodec, CompatMode, compat_enabled, compat_disabled, get, set}

module _ (c : Codec) (d : TmDb) (key : Bytes) (s : d.State) where
  -- In both modes Get returns what Set was given, and writes nothing, if the codec decodes what it
  -- encodes and the database below returns what it was given.
  pub get-set :
      (mode : CompatMode) (value : Bytes)
      → IsCodec c
      → ((v : Bytes) → d.get (d.set key v s).1 key ≡ ok (some v))
      → get c d mode key (set c d key value s).1 ≡ (ok (some value), (set c d key value s).1)
  unfolding get set
  get-set mode value codec stores = rw (stores (c.encode value), codec value) refl

  -- A value that the decoder refuses and that is no JSON is an unknown format where compatibility is on,
  -- and the decoder's error where it is off; nothing is written.
  get_unknown :
      (item : Bytes) {e : _}
      → d.get s key ≡ ok (some item)
      → c.decode item ≡ err e
      → c.json_valid item ≡ false
      → (get c d compat_enabled key s ≡ (err unknown_data, s))
        × (get c d compat_disabled key s ≡ (err e, s))
  unfolding get
  get_unknown item held refused json = ground (arith, held, refused, json)
