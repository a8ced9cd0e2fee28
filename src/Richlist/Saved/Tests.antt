-- ===== src/Richlist/Saved/Tests.antt =====
-- A list of two accounts, and a block without events.
use mantlemint.Prelude.{false, ◌≡◌, refl, some, [], ◌∷◌, ok}
use mantlemint.Tmdb.Memory.{memory_db}
use mantlemint.SafeBatch.{SafeBatchDb, new_safe_batch, open_batch, set}
use mantlemint.Richlist.List.{ranker_of, extract, extract_from, len, apply}
use mantlemint.Richlist.Changes.{filter_from}
use mantlemint.Richlist.Sorted.{numbers, sorted}
use mantlemint.Richlist.Index.{
  Setting, Listing, BlockEvents, index_richlist, update, prepare, apply_changes, apply_over,
  set_height, with_extracted, on_json, save_latest, set_default, all_events,
}
use mantlemint.Richlist.Saved.{IsSaved, index_richlist-IsSaved}

abbrev setting : Setting numbers sorted
setting = record {
  richlist_length = 1;
  default_denom = 7 ∷ [];
  denom = λ coin. 7 ∷ [];
  accounts = λ height denom. [];
  app = record { acc_address = λ a. a; is_module = λ a. false; balance = λ a denom. 0 };
  parse_coins = λ text. ok [];
  marshal = λ list. ok (list.height ∷ []);
}

abbrev listing : Listing numbers sorted setting memory_db
listing = record {
  batch = open_batch memory_db (new_safe_batch memory_db []);
  list = record {
    height = 4;
    rankers = ranker_of numbers sorted (50 ∷ []) 20 ∷ ranker_of numbers sorted (49 ∷ []) 10 ∷ [];
    threshold = some 5;
  };
}

abbrev no_events : BlockEvents
no_events = record { begins = []; txs = []; ends = [] }

index_richlist-IsSaved_example :
    let out = (index_richlist numbers sorted setting memory_db 5 (some no_events) listing).1 in
    (out.list.height ≡ 5)
    × ((before : SafeBatchDb memory_db) × IsSaved numbers sorted setting memory_db 5 before out)
unfolding index_richlist update prepare apply_changes apply_over set_height with_extracted on_json
    save_latest set_default all_events apply extract extract_from len set open_batch filter_from
index_richlist-IsSaved_example =
    index_richlist-IsSaved numbers sorted setting memory_db 5 (some no_events) listing refl refl
