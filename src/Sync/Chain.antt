-- ===== src/Sync/Chain.antt =====
-- The loop of sync.go over the blocks that the feed gives it, in the order of their heights: what the
-- session stores when the loop ends, in each of the ways in which it ends.
use mantlemint.Prelude.{
  ℕ, suc, ◌^◌, ◌<◌, pos, none, List, [], ◌∷◌, ok, err, panic, ◌≡◌, refl, ◌⊎◌, inl, inr, take,
  length, continue_with, arith, subst, sym,
}
use mantlemint.Tmdb.Session.{Session, IsReliable}
use mantlemint.Heleveldb.History.{History}
use mantlemint.Heleveldb.Stored.{Stores, add_block-Stores, same-Stores}
use mantlemint.SafeBatch.Block.{BlockDb}
use mantlemint.Mantlemint.Reactor.{Tendermint}
use mantlemint.Sync.{Outside, World, begin_block, process_block, process_blocks}
use mantlemint.Sync.Writes.{WritesThrough, written}
use mantlemint.Sync.Round.{process_block-Ends, undone}

module _ (x : Session) (t : Tendermint (BlockDb x)) (o : Outside x t) where
  -- The blocks have the heights `n + 1`, `n + 2` and on, up to 2 ^ 56 - 1.
  abbrev pub FollowOn : ℕ → List t.Block → Type 0
  FollowOn n [] = Unit
  FollowOn n (block ∷ blocks) =
      (o.block_height block ≡ pos (suc n)) × (suc n < 2 ^ 56) × FollowOn (suc n) blocks

  module _ (through : WritesThrough x t) where
    -- the history of `hist` and of the blocks from the height `n + 1` on, each with what ApplyBlock
    -- writes on it
    unfoldable pub history_of : List t.Block → ℕ → World x t o → History → History
    history_of [] n w hist = hist
    history_of (block ∷ blocks) n w hist =
        let ops = written x t through block w.mm (begin_block x t o block w).db in
        history_of blocks (suc n) (process_block x t o block w).1 ((suc n, ops) ∷ hist)

    module _ (r : IsReliable x) where
      -- What the session holds is `hist`, and what it holds after the rollback batch is `last`.
      abbrev IsBetween : History → History → World x t o → Type 0
      IsBetween last hist w =
          Stores x r w.db.db.0 hist × Stores x r (undone x w.rollback w.db.db.0) last

      -- The ways in which the loop ends: all the blocks are in the session, or the node has stopped,
      -- with the session of before the loop's last block, or of its first blocks.
      abbrev LoopEnds : List t.Block → ℕ → World x t o → History → History → Type 0
      LoopEnds blocks n w last hist =
          let out = process_blocks x t o blocks w in
          ((out.0 ≡ ok tt) × Stores x r out.1.db.db.0 (history_of blocks n w hist))
          ⊎ ((out.0 ≡ err panic)
              × (Stores x r out.1.db.db.0 last
                  ⊎ ((m : ℕ) × (m < length blocks)
                      × Stores x r out.1.db.db.0 (history_of (take m blocks) n w hist))))

      first_Ends :
          (block : t.Block) (blocks : List t.Block) (n : ℕ) (w : World x t o) (hist : History)
          → let w1 = (process_block x t o block w).1 in
            let ops = written x t through block w.mm (begin_block x t o block w).db in
            LoopEnds blocks (suc n) w1 hist ((suc n, ops) ∷ hist)
            → (last : History) → (process_block x t o block w).0 ≡ ok tt
            → LoopEnds (block ∷ blocks) n w last hist
      unfolding process_blocks history_of
      first_Ends block blocks n w hist rest last done =
          rw (done, continue_with)
            (elim rest [
              | inl all ↦ inl all
              | inr (stopped, inl st) ↦ inr (stopped, inr (0, omega arith, st))
              | inr (stopped, inr (m, l, st)) ↦ inr (stopped, inr (suc m, omega arith, st))
            ])

      process_blocks-Ends :
          (blocks : List t.Block) (n : ℕ) (w : World x t o) (last hist : History)
          → FollowOn n blocks
          → IsBetween last hist w
          → LoopEnds blocks n w last hist
      unfolding process_blocks history_of
      process_blocks-Ends [] n w last hist f (st, old) = inl (refl, st)
      process_blocks-Ends (block ∷ blocks) n w last hist (height, l, f) (st, old) =
          let w1 = (process_block x t o block w).1 in
          let ops = written x t through block w.mm (begin_block x t o block w).db in
          elim (process_block-Ends x t o r through block n w height l) [
            | inr (stopped, inl same) ↦
                rw (stopped, continue_with)
                  (inr (refl, inr (0, omega arith, subst (λ s. Stores x r s hist) (sym same) st)))
            | inr (stopped, inr back) ↦
                rw (stopped, continue_with)
                  (inr (refl, inl (subst (λ s. Stores x r s last) (sym back) old)))
            | inl (done, (holds, (rb, is_rb, back))) ↦
                let st1 = add_block-Stores x r w.db.db.0 w1.db.db.0 (suc n) ops hist l holds st in
                let old1 : Stores x r (undone x w1.rollback w1.db.db.0) hist =
                  subst (λ q. Stores x r (undone x q w1.db.db.0) hist) (sym is_rb)
                    (same-Stores x r w.db.db.0 (x.batch_write rb w1.db.db.0).1 hist back st) in
                first_Ends block blocks n w hist
                  (process_blocks-Ends blocks (suc n) w1 hist ((suc n, ops) ∷ hist) f (st1, old1))
                  last done
          ]

      -- The session of a node that is about to process blocks stores a history, with no rollback batch
      -- at hand, and the blocks are at the heights that follow on, below 2 ^ 56. If the session does not
      -- fail and ApplyBlock writes only through its database, the loop either ends without an error, and
      -- the session stores the history with every block and its writes, or it ends in a panic, and the
      -- session stores the history with the first blocks, fewer than all.
      pub process_blocks_stored :
          (blocks : List t.Block) (n : ℕ) (w : World x t o) (hist : History)
          → FollowOn n blocks
          → Stores x r w.db.db.0 hist
          → w.rollback ≡ none
          → let out = process_blocks x t o blocks w in
            ((out.0 ≡ ok tt) × Stores x r out.1.db.db.0 (history_of blocks n w hist))
            ⊎ ((out.0 ≡ err panic)
                × ((m : ℕ) × (m < length blocks)
                    × Stores x r out.1.db.db.0 (history_of (take m blocks) n w hist)))
      unfolding process_blocks history_of
      process_blocks_stored [] n w hist f st e = inl (refl, st)
      process_blocks_stored (block ∷ blocks) n w hist f st e =
          let old = subst (λ q. Stores x r (undone x q w.db.db.0) hist) (sym e) st in
          elim (process_blocks-Ends (block ∷ blocks) n w hist hist f (st, old)) [
            | inl all ↦ inl all
            | inr (stopped, inl first) ↦ inr (stopped, (0, omega arith, first))
            | inr (stopped, inr some_of) ↦ inr (stopped, some_of)
          ]
