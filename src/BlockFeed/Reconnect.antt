-- ===== src/BlockFeed/Reconnect.antt =====
-- block_feed/aggregate.go, Reconnect, with websocket.go, Subscribe: the endpoints that are tried after a
-- websocket is lost, until one stands. What the network does in each attempt is given, and what the
-- websocket sends if it stands. When it is lost again, Reconnect is called anew.
use native.Mathlib.Nat.{mod-add-mod}
use mantlemint.Prelude.{
  ◌-◌, ◌++◌, map, length, sym, ℕ, suc, ◌+◌, ◌%◌, ◌<◌, ◌≡◌, refl, ap, ◌∙◌, Bool, true, false, ◌&&◌,
  Option, none, some, List, [], ◌∷◌, All, Result, ok, err, panic, arith, ltb, if◌then◌else◌,
}
use mantlemint.BlockFeed.Sources.{Endpoints}
use mantlemint.BlockFeed.Aggregate.{Feed, next_ws_endpoint, subscribe}
use mantlemint.BlockFeed.Order.{heights, before_nil, Answers, out-subscribe}

module _ (e : Endpoints) where
  -- Whether Dial, WriteJSON and the read of the handshake go through, and what is sent then.
  pub record Attempt : Type 0 where
    pub dial : Bool
    pub write : Bool
    pub handshake : Bool
    pub sent : List (Option e.Block)

  abbrev pub stands : Attempt → Bool
  stands a = a.dial && a.write && a.handshake

  -- WSSubscription.Subscribe: whether it stands; an index past the endpoints panics
  unfoldable pub ws_subscribe : ℕ → ℕ → Attempt → Result Bool
  ws_subscribe ws_endpoints rpc_index a =
      if ltb rpc_index ws_endpoints then ok (stands a) else err panic

  -- The indices that were tried, the one that stands if one does, and the feed. `ok none` is a
  -- Reconnect that goes on after the attempts that are given.
  pub record Retry : Type 0 where
    pub tried : List ℕ
    pub outcome : Result (Option ℕ)
    pub feed : Feed e

  -- Subscribe on a websocket that stands
  after_subscribe : ℕ → Result (Unit {0}) × Feed e → Retry
  after_subscribe i (err x, f) = record { tried = i ∷ []; outcome = err x; feed = f }
  after_subscribe i (ok _, f) = record { tried = i ∷ []; outcome = ok (some i); feed = f }

  -- from the result of nextWSEndpoint on, where `later` is the Reconnect after an error
  after_index : Result ℕ × Feed e → Attempt → Retry → Retry
  unfolding after_subscribe
  after_index (err x, f) a later = record { tried = []; outcome = err x; feed = f }
  after_index (ok i, f) a later = elim (ws_subscribe f.ws_endpoints i a) [
    | err x ↦ record { tried = i ∷ []; outcome = err x; feed = f }
    | ok true ↦ after_subscribe i (subscribe e i a.sent f)
    | ok false ↦ record later { tried = i ∷ later.tried }
  ]

  -- Reconnect
  unfoldable pub reconnect : List Attempt → Feed e → Retry
  unfolding after_index
  reconnect [] f = record { tried = []; outcome = ok none; feed = f }
  reconnect (a ∷ rest) f =
      let later = reconnect rest (next_ws_endpoint e f).1 in
      after_index (next_ws_endpoint e f) a later

  next_ok :
      (f : Feed e)
      → 0 < f.ws_endpoints
      → next_ws_endpoint e f ≡ (
        ok ((f.last_known_endpoint + 1) % f.ws_endpoints),
        record f { last_known_endpoint = (f.last_known_endpoint + 1) % f.ws_endpoints },
      )
  unfolding next_ws_endpoint
  next_ok f p = ground arith

  abbrev turned : Feed e → Feed e
  turned f = record f { last_known_endpoint = (f.last_known_endpoint + 1) % f.ws_endpoints }

  reconnect_down :
      (a : Attempt) (rest : List Attempt) (f : Feed e)
      → 0 < f.ws_endpoints
      → stands a ≡ false
      → reconnect (a ∷ rest) f ≡ record (reconnect rest (turned f)) {
        tried = ((f.last_known_endpoint + 1) % f.ws_endpoints) ∷ (reconnect rest (turned f)).tried;
      }
  unfolding reconnect after_index ws_subscribe
  reconnect_down a rest f p q =
      ap (λ z. after_index z a (reconnect rest z.1)) (next_ok f p) ∙ ground arith

  subscribed :
      (i : ℕ) (z : Result (Unit {0}) × Feed e)
      → z.0 ≡ ok tt
      → after_subscribe i z ≡ record { tried = i ∷ []; outcome = ok (some i); feed = z.1 }
  unfolding after_subscribe
  subscribed i (err x, f) h = cc
  subscribed i (ok _, f) h = refl

  standing :
      (i : ℕ) (a : Attempt) (f : Feed e) (later : Retry)
      → i < f.ws_endpoints
      → stands a ≡ true
      → after_index (ok i, f) a later ≡ after_subscribe i (subscribe e i a.sent f)
  unfolding after_index ws_subscribe
  standing i a f later l q = ground arith

  reconnect_up :
      (a : Attempt) (rest : List Attempt) (f : Feed e)
      → 0 < f.ws_endpoints
      → stands a ≡ true
      → let i = (f.last_known_endpoint + 1) % f.ws_endpoints in
        (subscribe e i a.sent (turned f)).0 ≡ ok tt
        → reconnect (a ∷ rest) f ≡ record {
          tried = i ∷ [];
          outcome = ok (some i);
          feed = (subscribe e i a.sent (turned f)).1;
        }
  unfolding reconnect after_index ws_subscribe after_subscribe
  reconnect_up a rest f p q done =
      ap (λ z. after_index z a (reconnect rest z.1)) (next_ok f p)
      ∙ standing ((f.last_known_endpoint + 1) % f.ws_endpoints) a (turned f)
          (reconnect rest (turned f)) (omega arith) q
      ∙ subscribed _ _ done

  -- `i` is the endpoint whose turn it is after `m` more attempts
  in_turn : (last m n i : ℕ) → i ≡ (last + suc (suc m)) % n → i ≡ ((last + 1) % n + suc m) % n
  in_turn last m n i e =
      e ∙ ap (λ (k : ℕ). k % n) (omega arith) ∙ sym (mod-add-mod (last + 1) n (suc m))

  -- Attempts fail until one stands, whose endpoint `i` is as many places after the last one, in turn, as
  -- there were attempts, where there is one websocket endpoint at least. What its websocket sends is a
  -- value that is dropped, a block more than one height above the last known block, and more, and the
  -- RPC endpoint at the same index answers each request with the block of that height. Then Reconnect
  -- ends without a panic on the endpoint `i`, each index that it tries is below the number of the
  -- websocket endpoints, and the blocks that it sends on are those of all heights after the last known
  -- one up to that of the websocket's block, and behind them those that the websocket sends next.
  pub out-reconnect :
      (lost : List Attempt) (a : Attempt) (rest : List Attempt) (f : Feed e) (i : ℕ)
      (block_at : ℕ → e.Block) (dropped : Option e.Block) (first : e.Block)
      (ws : List (Option e.Block))
      → 0 < f.ws_endpoints
      → All (λ b. stands b ≡ false) lost
      → stands a ≡ true
      → i ≡ (f.last_known_endpoint + suc (length lost)) % f.ws_endpoints
      → a.sent ≡ dropped ∷ some first ∷ ws
      → Answers e i block_at
      → f.last_known_block + 1 < e.height first
      → let out = reconnect (lost ++ a ∷ rest) f in
        (out.outcome ≡ ok (some i))
        × All (λ j. j < f.ws_endpoints) out.tried
        × (out.feed.out
            ≡ f.out
              ++ map block_at
                  (heights (f.last_known_block + 1) (e.height first - f.last_known_block))
              ++ before_nil e ws)
  out-reconnect [] a rest f i block_at dropped first ws p failed q at sent answers behind =
      let (done, all) = out-subscribe e i block_at answers dropped first ws (turned f) behind in
      let same : subscribe e i (dropped ∷ some first ∷ ws) (turned f)
          ≡ subscribe e ((f.last_known_endpoint + 1) % f.ws_endpoints) a.sent (turned f) =
        ap (λ j. subscribe e j (dropped ∷ some first ∷ ws) (turned f)) at
        ∙ ap (λ l. subscribe e ((f.last_known_endpoint + 1) % f.ws_endpoints) l (turned f))
            (sym sent) in
      rw (reconnect_up a rest f p q (ap (λ z. z.0) (sym same) ∙ done))
        (ap (λ j. ok (some j)) (sym at), (omega arith, tt), ap (λ z. z.1.out) (sym same) ∙ all)
  out-reconnect (b ∷ lost) a rest f i block_at dropped first ws p (fails, failed) q at sent answers
        behind =
      let (done, low, all) =
        out-reconnect lost a rest (turned f) i block_at dropped first ws p failed q
          (in_turn f.last_known_endpoint (length lost) f.ws_endpoints i at) sent answers behind in
      rw (reconnect_down b (lost ++ a ∷ rest) f p fails) (done, (omega arith, low), all)
