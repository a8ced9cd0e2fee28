-- ===== src/BlockFeed/Tests.antt =====
-- Endpoints whose blocks are their heights, and whose bodies are one byte.
use mantlemint.Prelude.{
  ℕ, ◌<◌, All, true, false, Option, some, none, [], ◌∷◌, Result, ok, err, panic, ◌≡◌, refl, arith,
}
use mantlemint.Bytes.{Bytes}
use mantlemint.BlockFeed.Sources.{Endpoints}
use mantlemint.BlockFeed.Aggregate.{Feed, new_feed, subscribe}
use mantlemint.BlockFeed.Reconnect.{Attempt, reconnect, out-reconnect}
use mantlemint.BlockFeed.Order.{Answers, out-subscribe}

abbrev first_byte : Bytes → Result (Option ℕ)
first_byte [] = err panic
first_byte (b ∷ _) = ok (some b)

abbrev toy : Endpoints
toy = record {
  Block = ℕ;
  height = λ b. b;
  http_get = λ i h. ok (h ∷ []);
  extract_rpc = first_byte;
  extract_ws = first_byte;
  code = λ m. ok 0;
}

toy-Answers : (rpc_index : ℕ) → Answers toy rpc_index (λ i. i)
toy-Answers rpc_index i = (i ∷ [], refl, refl, refl)

out-subscribe_example :
    let out = subscribe toy 0 (some 8 ∷ some 9 ∷ some 10 ∷ none ∷ []) (new_feed toy 6 1) in
    (out.0 ≡ ok tt) × (out.1.out ≡ 7 ∷ 8 ∷ 9 ∷ 10 ∷ [])
unfolding new_feed
out-subscribe_example =
    out-subscribe toy 0 (λ i. i) (toy-Answers 0) (some 8) 9 (some 10 ∷ none ∷ []) (new_feed toy 6 1)
      (omega arith)

-- three endpoints, the last of which was used, and a handshake that goes through at the second attempt
abbrev no_dial : Attempt toy
no_dial = record { dial = false; write = true; handshake = true; sent = [] }

abbrev all_stands : Attempt toy
all_stands = record {
  dial = true;
  write = true;
  handshake = true;
  sent = some 8 ∷ some 9 ∷ some 10 ∷ none ∷ [];
}

abbrev at_last : Feed toy
at_last = record {
  last_known_block = 6;
  last_known_endpoint = 2;
  ws_endpoints = 3;
  is_synced = false;
  out = 6 ∷ [];
}

out-reconnect_example :
    let out = reconnect toy (no_dial ∷ all_stands ∷ []) at_last in
    (out.outcome ≡ ok (some 1))
    × All (λ i. i < 3) out.tried
    × (out.feed.out ≡ 6 ∷ 7 ∷ 8 ∷ 9 ∷ 10 ∷ [])
out-reconnect_example =
    out-reconnect toy (no_dial ∷ []) all_stands [] at_last 1 (λ i. i) (some 8) 9
      (some 10 ∷ none ∷ []) (omega arith) (refl, tt) refl refl refl (toy-Answers 1) (omega arith)
