-- ===== src/Heleveldb/Reads.antt =====
-- Reads at a height are reads of the history.
use mathlib.Core.List.{append_cancel_left}
use mantlemint.Height.{current_or_latest, current_or_never}
use mantlemint.Bytes.Order.{bytes_lt_irrefl}
use mantlemint.Prelude.{
  All-In, is_some, ltb_ℤ, eq_ℤ, subst, ℕ, ◌-◌, ◌^◌, ◌/◌, ◌%◌, ◌<◌, ◌≤◌, ◌≡◌, refl, ap, ◌∙◌, ◌⊎◌,
  pos, true, false, Option, none, some, List, [], ◌∷◌, ◌++◌, arith, inl, inr, Option-cases, Result,
  ok, In, max_uint64, ltb,
}
use mantlemint.Bytes.{Bytes, bytes_lt, be_bytes, uint_to_big_endian}
use mantlemint.Bytes.BigEndian.{bytes_lt-uint_to_big_endian}
use mantlemint.Tmdb.Session.{is_key, Session, IsReliable, IsAscending}
use mantlemint.Heleveldb.Keys.{desc}
use mantlemint.Heleveldb.Driver.{get, has, read_at, decode_value, decode_presence}
use mantlemint.Heleveldb.History.{
  History, version, newest, no_clash, version-no_clash, version-bound, IsDescending, IsApart,
  read_spec, read_spec_absent, read_spec_newest,
}
use mantlemint.Heleveldb.Raw.{suffix, encode}
use mantlemint.Heleveldb.Stored.{Stores, flat}

suffix_head : (h : ℕ) → h < 2 ^ 56 → (t : Bytes) × (suffix h ≡ 255 ∷ t)
unfolding uint_to_big_endian be_bytes
suffix_head h l =
    let e : (max_uint64 - h) / 256 ^ 7 % 256 ≡ 255 = omega arith in
    (
      be_bytes 7 ((max_uint64 - h) % 256 ^ 7),
      ap (λ (b : ℕ). b ∷ be_bytes 7 ((max_uint64 - h) % 256 ^ 7)) e,
    )

bytes_lt-suffix : (h n : ℕ) → h < 2 ^ 56 → n < 2 ^ 56 → bytes_lt (suffix h) (suffix n) ≡ ltb n h
bytes_lt-suffix h n lh ln =
    bytes_lt-uint_to_big_endian (max_uint64 - h) (max_uint64 - n) (omega arith) (omega arith)
    ∙ ground arith

-- An entry under a key that does not clash is a version of that key, or stands before all versions.
clash_split :
    (k key e t : Bytes)
    → no_clash k key ≡ true
    → key ++ e ≡ k ++ (255 ∷ t)
    → (k ≡ key) ⊎ ((b : ℕ) × (rest : Bytes) × (e ≡ b ∷ rest) × (b < 255))
unfolding no_clash
clash_split [] [] e t c q = inl refl
clash_split [] (b ∷ key) e t c q = ground arith
clash_split (a ∷ k) [] e t c q = inr (a, k ++ (255 ∷ t), q, ground arith)
clash_split (a ∷ k) (b ∷ key) e t c q = ground (arith, clash_split k key e t)

bytes_lt_head : (b n : ℕ) (u t : Bytes) → b < n → bytes_lt (b ∷ u) (n ∷ t) ≡ true
unfolding bytes_lt
bytes_lt_head b n u t h = ground arith

-- In a sorted list that starts with one suffix, no suffix of a greater height is found.
newest_first :
    (n m : ℕ) (v w : Bytes) (rest : List (Bytes × Bytes))
    → n < 2 ^ 56
    → m < 2 ^ 56
    → n < m
    → IsAscending ((suffix n, v) ∷ rest)
    → In (suffix m, w) ((suffix n, v) ∷ rest)
    → ⊥
newest_first n m v w rest ln lm lt sorted (inl e) = ground (
  arith,
  ap (λ (t : Bytes × Bytes). bytes_lt t.0 (suffix n)) e,
  bytes_lt-suffix m n lm ln,
  bytes_lt-suffix n m ln lm,
  bytes_lt_irrefl (suffix n),
)
newest_first n m v w rest ln lm lt sorted (inr i) = ground (
  arith,
  All-In (λ (t : Bytes × Bytes). bytes_lt (suffix n) t.0 ≡ true) (suffix m, w) rest sorted.0 i,
  bytes_lt-suffix n m ln lm,
)

current_or_latest_pos : (h : ℕ) → 0 < h → current_or_latest (pos h) ≡ pos h
unfolding current_or_latest
current_or_latest_pos h p = ground arith

never_below : (h : ℕ) → ltb_ℤ (pos h) (current_or_never (pos 0)) ≡ false
unfolding current_or_never
never_below h = ground arith

decode_value-encode : (o : Option Bytes) → decode_value (encode o) ≡ ok o
unfolding decode_value
decode_value-encode none = refl
decode_value-encode (some v) = refl

decode_presence-encode : (o : Option Bytes) → decode_presence (encode o) ≡ ok (is_some o)
unfolding decode_presence
decode_presence-encode none = refl
decode_presence-encode (some v) = refl

not_current : (h : ℕ) → 0 < h → eq_ℤ (pos h) (pos 0) ≡ false
not_current h p = ground arith

abbrev first_of_ahead : {A : Type 0} → A → (Bytes → Result A) → List (Bytes × Bytes) → Result A
first_of_ahead absent found [] = ok absent
first_of_ahead absent found (entry ∷ _) = found entry.1

module _ (x : Session) (r : IsReliable x) (s : x.State) (hist : History) (key : Bytes) (h : ℕ)
    (st : Stores x r s hist) (d : IsDescending hist) (apart : IsApart hist key)
    (l : h < 2 ^ 56) where
  open r use {view, entries}

  abbrev ahead : List (Bytes × Bytes)
  ahead = entries s (2 ∷ key) (some (suffix h)) none

  suffix-is_key : (n : ℕ) → n < 2 ^ 56 → is_key (suffix n) ≡ true
  suffix-is_key n ln = let (t, head) = suffix_head n ln in rw head refl

  -- every entry that the inner iterator meets is a version up to the height
  ahead_sound :
      (e v : Bytes)
      → In (e, v) ahead
      → (n : ℕ) × (o : Option Bytes) × (e ≡ suffix n)
        × (n ≤ h)
        × (version hist key n ≡ some o)
        × (v ≡ encode o)
  ahead_sound e v i =
      let (held, within) = r.entries_sound s (2 ∷ key) (some (suffix h)) none e v i in
      let (k, n, o, at, was) = st.only (key ++ e) v held in
      let ln : n < 2 ^ 56 = version-bound hist k n o d was in
      let (t, head) = suffix_head n ln in
      let (t', head') = suffix_head h l in
      let whole = at ∙ ap (λ (u : Bytes). k ++ u) head in
      elim (clash_split k key e t (version-no_clash hist k key n o apart was) whole) [
        | inr (b, rest, q, small) ↦
            absurd (ground (arith, within, q, head', bytes_lt_head b 255 rest t' small))
        | inl q ↦
            let same : e ≡ suffix n = append_cancel_left key e (suffix n) (rw q at at) in
            let was' : version hist key n ≡ some o = rw q at was in
            let at_most : n ≤ h = ground (arith, within, same, bytes_lt-suffix n h ln l) in
            (n, o, same, at_most, was', ground (arith, held, same, st.versions key n ln, was'))
      ]

  -- and it meets every version up to the height
  ahead_complete :
      (m : ℕ) (o : Option Bytes)
      → m ≤ h
      → version hist key m ≡ some o
      → In (suffix m, encode o) ahead
  ahead_complete m o at_most was =
      let lm : m < 2 ^ 56 = omega arith in
      r.entries_complete s (2 ∷ key) (some (suffix h)) none (suffix m) (encode o)
        (suffix-is_key m lm) (st.versions key m lm ∙ rw was refl)
        (ground (arith, bytes_lt-suffix m h lm l))

  no_older :
      (n m : ℕ) (rest : List (Bytes × Bytes)) (v : Bytes)
      → ahead ≡ (suffix n, v) ∷ rest
      → n ≤ h
      → n < m
      → m ≤ h
      → version hist key m ≡ none
  no_older n m rest v q ln lt lm = elim (Option-cases (version hist key m)) [
    | inl e ↦ e
    | inr (o, e) ↦
        let found : In (suffix m, encode o) ((suffix n, v) ∷ rest) =
          rw q at (ahead_complete m o lm e) in
        let sorted : IsAscending ((suffix n, v) ∷ rest) =
          rw q at (r.entries_sorted s (2 ∷ key) (some (suffix h)) none) in
        absurd (newest_first n m v (encode o) rest (omega arith) (omega arith) lt sorted found)
  ]

  -- what the first entry ahead says of the history
  first_entry :
      (e v : Bytes) (rest : List (Bytes × Bytes))
      → ahead ≡ (e, v) ∷ rest
      → v ≡ encode (read_spec hist h key)
  first_entry e v rest q =
      let (n, o, at, ln, was, val) = ahead_sound e v (rw q (inl refl)) in
      let q' : ahead ≡ (suffix n, v) ∷ rest = q ∙ ap (λ (u : Bytes). (u, v) ∷ rest) at in
      let spec : read_spec hist h key ≡ o =
        read_spec_newest hist key h n o d ln was (λ m lt lm. no_older n m rest v q' ln lt lm) in
      rw spec val

  nothing_ahead : ahead ≡ [] → read_spec hist h key ≡ none
  nothing_ahead q = read_spec_absent hist key h λ m lm. elim (Option-cases (version hist key m)) [
    | inl e ↦ e
    | inr (o, e) ↦ absurd (
        subst (λ (l : List (Bytes × Bytes)). In {A = Bytes × Bytes} (suffix m, encode o) l) q
          (ahead_complete m o lm e))
  ]

  opened : x.prefix_iterator s (2 ∷ key) (some (suffix h)) none ≡ ok ahead
  opened = r.prefix_iterator_ok s (2 ∷ key) (some (suffix h)) none (suffix-is_key h l) refl

  -- Get and Has at a height go to the first entry ahead.
  read_ahead :
      {A : Type 0} (absent : A) (found : Bytes → Result A) (es : List (Bytes × Bytes))
      → 0 < h
      → ahead ≡ es
      → read_at x desc s (pos h) key absent found ≡ first_of_ahead absent found es
  unfolding read_at
  read_ahead absent found [] p q =
      let e : h % 2 ^ 64 ≡ h = omega arith in
      rw (current_or_latest_pos h p, never_below h) (ground (arith, opened, e, q))
  read_ahead absent found (entry ∷ rest) p q =
      let e : h % 2 ^ 64 ≡ h = omega arith in
      rw (current_or_latest_pos h p, never_below h) (ground (arith, opened, e, q))

  get_ahead :
      (es : List (Bytes × Bytes))
      → 0 < h
      → ahead ≡ es
      → get x desc s (pos h) key ≡ ok (read_spec hist h key)
  unfolding get
  get_ahead [] p q = rw (not_current h p, read_ahead none decode_value [] p q, nothing_ahead q) refl
  get_ahead ((k, v) ∷ rest) p q =
      rw (not_current h p, read_ahead none decode_value ((k, v) ∷ rest) p q, first_entry k v rest q)
        (decode_value-encode (read_spec hist h key))

  has_ahead :
      (es : List (Bytes × Bytes))
      → 0 < h
      → ahead ≡ es
      → has x desc s (pos h) key ≡ ok (is_some (read_spec hist h key))
  unfolding has
  has_ahead [] p q =
      rw (not_current h p, read_ahead false decode_presence [] p q, nothing_ahead q) refl
  has_ahead ((k, v) ∷ rest) p q =
      rw
        (
          not_current h p,
          read_ahead false decode_presence ((k, v) ∷ rest) p q,
          first_entry k v rest q,
        )
        (decode_presence-encode (read_spec hist h key))

  -- A session that stores a history answers Get at a height with what the key held right after the
  -- block of that height, if no key that the history writes clashes with the key.
  pub get-Stores : 0 < h → get x desc s (pos h) key ≡ ok (read_spec hist h key)
  get-Stores p = get_ahead ahead p refl

  pub has-Stores : 0 < h → has x desc s (pos h) key ≡ ok (is_some (read_spec hist h key))
  has-Stores p = has_ahead ahead p refl

-- At height 0 they answer with the newest write of all.
pub get-Stores_latest :
    (x : Session) (r : IsReliable x) (s : x.State) (hist : History) (key : Bytes)
    → Stores x r s hist
    → get x desc s (pos 0) key ≡ ok (flat (newest hist key))
unfolding get
get-Stores_latest x r s hist key st = rw r.get_ok (ap ok (st.current key))
