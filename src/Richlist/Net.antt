-- ===== src/Richlist/Net.antt =====
-- The change of an account is what it received less what it spent.
use mantlemint.Prelude.{
  ℕ, ◌+◌, ℤ, pos, negsuc, ◌-ℤ◌, ◌+ℤ◌, pos_part, neg_part, sub_ℕ, Bool, true, false, ◌||◌, Option,
  some, none, List, [], ◌∷◌, Result, ◌≡◌, refl, sym, ap, subst, ◌∙◌, if◌then◌else◌, arith,
  Bool-cases, Option-cases, inl, inr, is_some,
}
use mantlemint.Bytes.{Bytes, bytes_eq}
use mantlemint.Bytes.Order.{bytes_eq_iff}
use mantlemint.Richlist.Changes.{
  Event, CoinMap, lookup, store, spend, receive, spent, received, add_event, filter_from,
  filter_coin_changes, event_coin_spent, event_coin_received,
}

parts : (a b : ℕ) → pos_part (sub_ℕ a b) + b ≡ neg_part (sub_ℕ a b) + a
parts a b = ground arith

sub_eq : (a b c d : ℕ) → a + d ≡ c + b → sub_ℕ a b ≡ sub_ℕ c d
sub_eq a b c d h = ground arith

add_spent : (v c r s : ℤ) → (v -ℤ c) +ℤ (r -ℤ s) ≡ v +ℤ (r -ℤ (c +ℤ s))
unfolding ◌+ℤ◌ ◌-ℤ◌
add_spent v c r s = sub_eq _ _ _ _ (
    omega (
      arith,
      parts (pos_part v + neg_part c) (neg_part v + pos_part c),
      parts (pos_part r + neg_part s) (neg_part r + pos_part s),
      parts (pos_part c + pos_part s) (neg_part c + neg_part s),
      parts (pos_part r + neg_part (c +ℤ s)) (neg_part r + pos_part (c +ℤ s)),
    ))

add_received : (v c r s : ℤ) → (v +ℤ c) +ℤ (r -ℤ s) ≡ v +ℤ ((c +ℤ r) -ℤ s)
unfolding ◌+ℤ◌ ◌-ℤ◌
add_received v c r s = sub_eq _ _ _ _ (
    omega (
      arith,
      parts (pos_part v + pos_part c) (neg_part v + neg_part c),
      parts (pos_part r + neg_part s) (neg_part r + pos_part s),
      parts (pos_part c + pos_part r) (neg_part c + neg_part r),
      parts (pos_part (c +ℤ r) + neg_part s) (neg_part (c +ℤ r) + pos_part s),
    ))

zero_add : (c : ℤ) → pos 0 +ℤ c ≡ c
unfolding ◌+ℤ◌
zero_add (pos n) = ground arith
zero_add (negsuc n) = ground arith

add_zero : (c : ℤ) → c +ℤ pos 0 ≡ c
unfolding ◌+ℤ◌
add_zero (pos n) = ground arith
add_zero (negsuc n) = ground arith

lookup-store :
    (a b : Bytes) (n : ℤ) (m : CoinMap)
    → lookup (store a n m) b ≡ (if bytes_eq a b then some n else lookup m b)
unfolding lookup store
lookup-store a b n [] = refl
lookup-store a b n ((c, old) ∷ m) =
    ground (arith, lookup-store a b n m, bytes_eq_iff c a, bytes_eq_iff a b, bytes_eq_iff c b)

-- no amount is 0
abbrev pub amount_of : Option ℤ → ℤ
amount_of none = pos 0
amount_of (some n) = n

abbrev pub for_account : Bytes → Option (Bytes × ℤ) → Option ℤ
for_account a none = none
for_account a (some (b, n)) = if bytes_eq b a then some n else none

module _ (parse_coins : Bytes → Result (List (Bytes × ℤ))) (denom a : Bytes) where
  -- what an event says that the account spent, and received
  unfoldable pub spent_by : Event → Option ℤ
  spent_by e =
      if bytes_eq e.kind event_coin_spent then for_account a (spent parse_coins denom e) else none

  unfoldable pub received_by : Event → Option ℤ
  received_by e =
      if bytes_eq e.kind event_coin_received
      then for_account a (received parse_coins denom e)
      else none

  unfoldable pub total_spent : List Event → ℤ
  total_spent [] = pos 0
  total_spent (e ∷ es) = amount_of (spent_by e) +ℤ total_spent es

  unfoldable pub total_received : List Event → ℤ
  total_received [] = pos 0
  total_received (e ∷ es) = amount_of (received_by e) +ℤ total_received es

  unfoldable pub touched : List Event → Bool
  touched [] = false
  touched (e ∷ es) = is_some (spent_by e) || is_some (received_by e) || touched es

  -- the value of an account after it spent and received what is given
  abbrev after_spent : Option ℤ → Option ℤ → Option ℤ
  after_spent v none = v
  after_spent v (some c) = some (amount_of v -ℤ c)

  abbrev after_received : Option ℤ → Option ℤ → Option ℤ
  after_received v none = v
  after_received v (some c) = some (amount_of v +ℤ c)

  lookup-spend :
      (v : Option (Bytes × ℤ)) (m : CoinMap)
      → lookup (spend parse_coins denom v m) a ≡ after_spent (lookup m a) (for_account a v)
  unfolding spend
  lookup-spend none m = refl
  lookup-spend (some (b, n)) m = elim (Option-cases (lookup m b)) [
    | inl e ↦ ground (arith, lookup-store b a (pos 0 -ℤ n) m, bytes_eq_iff b a)
    | inr (old, e) ↦ ground (arith, lookup-store b a (old -ℤ n) m, bytes_eq_iff b a)
  ]

  lookup-receive :
      (v : Option (Bytes × ℤ)) (m : CoinMap)
      → lookup (receive parse_coins denom v m) a ≡ after_received (lookup m a) (for_account a v)
  unfolding receive
  lookup-receive none m = refl
  lookup-receive (some (b, n)) m = elim (Option-cases (lookup m b)) [
    | inl e ↦ ground (arith, lookup-store b a n m, bytes_eq_iff b a, zero_add n)
    | inr (old, e) ↦ ground (arith, lookup-store b a (old +ℤ n) m, bytes_eq_iff b a)
  ]

  one_kind :
      (kind : Bytes)
      → bytes_eq kind event_coin_spent ≡ true
      → bytes_eq kind event_coin_received ≡ false
  unfolding bytes_eq
  one_kind kind h =
      subst (λ z. bytes_eq z event_coin_received ≡ false)
        (sym ((bytes_eq_iff kind event_coin_spent).0 h)) refl

  lookup-add_event :
      (e : Event) (m : CoinMap)
      → lookup (add_event parse_coins denom e m) a
        ≡ after_received (after_spent (lookup m a) (spent_by e)) (received_by e)
  unfolding add_event spent_by received_by
  lookup-add_event e m = elim (Bool-cases (bytes_eq e.kind event_coin_spent)) [
    | inl s ↦ rw (s, one_kind e.kind s) (lookup-spend (spent parse_coins denom e) m)
    | inr s ↦ elim (Bool-cases (bytes_eq e.kind event_coin_received)) [
      | inl r ↦ rw (s, r) (lookup-receive (received parse_coins denom e) m)
      | inr r ↦ rw (s, r) refl
    ]
  ]

  -- the value of an account after events
  abbrev settled : Option ℤ → List Event → Option ℤ
  settled v es =
      if is_some v || touched es
      then some (amount_of v +ℤ (total_received es -ℤ total_spent es))
      else none

  settled_next :
      (v s r : Option ℤ) (e : Event) (es : List Event)
      → spent_by e ≡ s
      → received_by e ≡ r
      → settled (after_received (after_spent v s) r) es ≡ settled v (e ∷ es)
  unfolding touched total_spent total_received
  settled_next v none none e es hs hr =
      rw (hs, hr, zero_add (total_received es), zero_add (total_spent es)) refl
  settled_next v none (some d) e es hs hr =
      rw (hs, hr, zero_add (total_spent es))
        (ground (arith, add_received (amount_of v) d (total_received es) (total_spent es)))
  settled_next v (some c) none e es hs hr =
      rw (hs, hr, zero_add (total_received es))
        (ground (arith, add_spent (amount_of v) c (total_received es) (total_spent es)))
  settled_next v (some c) (some d) e es hs hr =
      rw (hs, hr)
        (ground (
          arith,
          add_received (amount_of v -ℤ c) d (total_received es) (total_spent es),
          add_spent (amount_of v) c (d +ℤ total_received es) (total_spent es),
        ))

  settled_nil : (v : Option ℤ) → v ≡ settled v []
  unfolding touched total_received total_spent ◌-ℤ◌
  settled_nil none = refl
  settled_nil (some v) = ap some (sym (add_zero v))

  lookup-filter_from :
      (es : List Event) (m : CoinMap)
      → lookup (filter_from parse_coins denom es m) a ≡ settled (lookup m a) es
  unfolding filter_from touched
  lookup-filter_from [] m = settled_nil (lookup m a)
  lookup-filter_from (e ∷ es) m =
      lookup-filter_from es (add_event parse_coins denom e m)
      ∙ ap (λ v. settled v es) (lookup-add_event e m)
      ∙ settled_next (lookup m a) (spent_by e) (received_by e) e es refl refl

  -- The changes that filterCoinChanges finds have an entry for an account where an event of the block
  -- says that it spent or received coins of the denomination, and the entry is the total that it
  -- received less the total that it spent.
  pub lookup-filter_coin_changes :
      (es : List Event)
      → lookup (filter_coin_changes parse_coins es denom) a
        ≡ (if touched es then some (total_received es -ℤ total_spent es) else none)
  unfolding lookup
  lookup-filter_coin_changes es =
      lookup-filter_from es []
      ∙ ap (λ z. if touched es then some z else none)
          (zero_add (total_received es -ℤ total_spent es))
