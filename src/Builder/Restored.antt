-- ===== src/Builder/Restored.antt =====
-- Where the channel manager and the chain monitor of a build come from.
use ln_node.Prelude.{
  ◌≡◌, ℕ, ◌%◌, ◌^◌, true, false, ◌⊎◌, inl, inr, List, [], ◌∷◌, ok, err, >>=-eq-ok, map_err,
  map_err-eq-ok, Result-cases, Outcome-cases, returned, arith,
}
use ln_node.Kv.{Bytes, KvStore}
use ln_node.Config.{NodeBuilder}
use ln_node.Builder.{
  Ldk, completed, in_progress, unrecoverable_error, Found, monitors_of, watch_all, create_manager,
  read_channels, restore_manager, channels, io_error, manager_undecodable,
}

module _ (S : KvStore) (L : Ldk) where
  -- The chain monitor took every monitor, each completely.
  abbrev pub IsWatched : List L.Monitor → L.ChainMonitor → L.ChainMonitor → Type 0
  IsWatched [] c d = c ≡ d
  IsWatched (m ∷ ms) c d =
      ((L.watch_channel (L.channel_id m) m c).0 ≡ ok completed)
      × IsWatched ms (L.watch_channel (L.channel_id m) m c).1 d

  watch_all-IsWatched :
      (ms : List L.Monitor) (c d : L.ChainMonitor)
      → watch_all S L ms c ≡ returned (ok d)
      → IsWatched ms c d
  unfolding watch_all
  watch_all-IsWatched [] c d h = ground arith
  watch_all-IsWatched (m ∷ ms) c d h =
      let next = (L.watch_channel (L.channel_id m) m c).1 in
      elim (Result-cases (L.watch_channel (L.channel_id m) m c).0) [
        | inl (completed, e) ↦ (e, watch_all-IsWatched ms next d (ground (arith, h, e)))
        | inl (in_progress, e) ↦ absurd (ground (arith, h, e))
        | inl (unrecoverable_error, e) ↦ absurd (ground (arith, h, e))
        | inr (x, e) ↦ absurd (ground (arith, h, e))
      ]

  -- The channel manager and the chain monitor were read back from disk.
  pub record IsRestored (b : NodeBuilder) (found : Found S L) (manager : L.ChannelManager)
      (monitor : L.ChainMonitor) : Type 0 where
    pub monitors : List (L.BlockHash × L.Monitor)
    pub file : Bytes
    pub listed : found.monitors ≡ ok monitors
    pub opened : found.manager ≡ ok file
    pub decoded : L.read_manager b.ldk_config (monitors_of S L monitors) file ≡ ok manager
    pub watched : IsWatched (monitors_of S L monitors) L.new_chain_monitor monitor

  restore_manager-IsRestored :
      (b : NodeBuilder) (found : Found S L) (manager : L.ChannelManager) (monitor : L.ChainMonitor)
      → restore_manager S L b found ≡ returned (ok (manager, monitor))
      → IsRestored b found manager monitor
  unfolding restore_manager read_channels
  restore_manager-IsRestored b found manager monitor h =
      elim (Result-cases (read_channels S L b found)) [
        | inr (x, failed) ↦ absurd (ground (arith, h, failed))
        | inl ((man, ms), read) ↦
            let (ms1, e1, r1) = >>=-eq-ok (map_err io_error found.monitors) _ read in
            let (f, e2, r2) = >>=-eq-ok (map_err io_error found.manager) _ r1 in
            let (m2, e3, r3) =
              >>=-eq-ok
                (map_err manager_undecodable (L.read_manager b.ldk_config (monitors_of S L ms1) f))
                _ r2 in
            elim (Outcome-cases (watch_all S L ms L.new_chain_monitor)) [
              | inr crash ↦ absurd (ground (arith, h, read, crash))
              | inl (err x, failed) ↦ absurd (ground (arith, h, read, failed))
              | inl (ok watching, done) ↦
                  let same : monitors_of S L ms1 ≡ ms = ground (arith, r3) in
                  let end : watching ≡ monitor = ground (arith, h, read, done) in
                  record {
                    monitors = ms1;
                    file = f;
                    listed = map_err-eq-ok io_error _ e1;
                    opened = map_err-eq-ok io_error _ e2;
                    decoded =
                        map_err-eq-ok manager_undecodable _ (ground (arith, e3, r3, h, read, done));
                    watched = watch_all-IsWatched _ _ _ (ground (arith, same, done, end));
                  }
            ]
      ]

  -- The channel manager was made anew, at bitcoind's best block, beside a chain monitor with nothing
  -- to watch.
  pub record IsFresh (b : NodeBuilder) (secs : ℕ) (found : Found S L) (manager : L.ChannelManager)
      (monitor : L.ChainMonitor) : Type 0 where
    pub best_block : L.BlockHash × ℕ
    pub tip : found.best_block ≡ returned (ok best_block)
    pub made : manager ≡ L.new_manager b.ldk_config b.config.network best_block (secs % 2 ^ 32)
    pub unwatched : monitor ≡ L.new_chain_monitor

  create_manager-IsFresh :
      (b : NodeBuilder) (secs : ℕ) (found : Found S L) (manager : L.ChannelManager)
      (monitor : L.ChainMonitor)
      → create_manager S L b (secs % 2 ^ 32) found ≡ returned (ok (manager, monitor))
      → IsFresh b secs found manager monitor
  unfolding create_manager
  create_manager-IsFresh b secs found manager monitor h = elim (Outcome-cases found.best_block) [
    | inr crash ↦ absurd (ground (arith, h, crash))
    | inl (err x, failed) ↦ absurd (ground (arith, h, failed))
    | inl (ok best, known) ↦ record {
      best_block = best;
      tip = known;
      made = ground (arith, h, known);
      unwatched = ground (arith, h, known);
    }
  ]

  pub channels-cases :
      (b : NodeBuilder) (secs : ℕ) (found : Found S L) (manager : L.ChannelManager)
      (monitor : L.ChainMonitor)
      → channels S L b (secs % 2 ^ 32) found ≡ returned (ok (manager, monitor))
      → ((found.store_exists ≡ ok false) × IsFresh b secs found manager monitor)
        ⊎ ((found.store_exists ≡ ok true) × IsRestored b found manager monitor)
  unfolding channels
  channels-cases b secs found manager monitor h = elim (Result-cases found.store_exists) [
    | inr (x, failed) ↦ absurd (ground (arith, h, failed))
    | inl (false, none_yet) ↦ inl (
      none_yet,
      create_manager-IsFresh b secs found manager monitor (ground (arith, h, none_yet)),
    )
    | inl (true, there) ↦
        inr (there, restore_manager-IsRestored b found manager monitor (ground (arith, h, there)))
  ]
