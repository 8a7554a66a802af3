-- ===== src/Raft/Peer/Commit.antt =====
-- How GetUpdate, Commit and HasUpdate of internal/raft/peer.go fit together.
use dragonboat.Prelude.{
  ℕ, ◌≤◌, ◌≡◌, refl, sym, ap, ◌∙◌, subst, ◌≢◌, ◌⊎◌, inl, inr, Bool, true, false, not, ◌&&◌, ◌||◌,
  Option, none, some, List, [], ◌∷◌, arith, ltb, if◌then◌else◌, Bool-cases, length, last?,
  empty_of_length, ok, ◌>>=◌, ok-injective, bind-eq-ok,
}
use dragonboat.Pb.{
  Entry, last_entry, entry_or_empty, Snapshot, Update, UpdateCommit, is_state_equal, is_empty_state,
  is_empty_snapshot, is_some_snapshot, empty_state,
}
use dragonboat.Pb
use dragonboat.Raft.EntryUtils.{max}
use dragonboat.Raft.InMemory.Window.{index-last?}
use dragonboat.Raft.InMemory.Saving.{
  snapshot_to, entries_to_save-IsSaved, applied_log_to-IsSaved, commit_update-IsSaved,
}
use dragonboat.Raft.EntryLog
use dragonboat.Raft.EntryLog.{
  EntryLog, Fetched, fetched, failed, must, first_not_applied_index, to_apply_index_limit,
  has_entries_to_apply, max_entries_to_apply_size,
}
use dragonboat.Raft.EntryLog.Fetch
use dragonboat.Raft.EntryLog.Fetch.{Within, get_entries-Within}
use dragonboat.Raft.Node.{Raft, raft_state}
use dragonboat.Raft.Peer.{Peer}
use dragonboat.Raft.Peer.Update.{
  or_empty, get_update_commit, pending_update, get_update, has_update, commit,
}

-- A valid log that is applied up to a committed entry, with a snapshot, if one waits, between the two.
pub record IsReady (l : EntryLog) : Type 0 where
  pub valid : Fetch.IsValid l
  pub applied_le : l.applied ≤ l.committed
  pub snapshot_between :
      (ss : Snapshot)
      → l.inmem.snapshot ≡ some ss
      → (l.applied ≤ ss.index) × (ss.index ≤ l.committed)

module _ (l : EntryLog) (v : IsReady l) where
  -- An index that the log can be applied up to; 0 stands for none.
  abbrev Applies : ℕ → Type 0
  Applies i = (i ≡ 0) ⊎ ((l.applied ≤ i) × (i ≤ l.committed))

  last-Applies :
      (es : List Entry)
      → Within (first_not_applied_index l) (to_apply_index_limit l) es
      → Applies (last_entry es).index
  unfolding first_not_applied_index max
  last-Applies es w = go (last? es) refl
    where
      go : (o : Option Entry) → last? es ≡ o → Applies (entry_or_empty o).index
      go none e = inl refl
      go (some e) f = inr (
          ground (
            arith,
            index-last? (first_not_applied_index l) es w.0 f,
            w.1,
            v.applied_le,
            v.valid.committed_le,
            v.valid.joined,
            v.valid.inmem.fits,
            not_empty es f,
          ))
        where
          not_empty : (xs : List Entry) → last? xs ≡ some e → xs ≢ []
          not_empty [] h = cc
          not_empty (x ∷ xs) h = λ k. cc

  committed-Applies :
      (more : Bool) (es : List Entry)
      → (if more then EntryLog.entries_to_apply l else ok []) ≡ ok es
      → Applies (last_entry es).index
  unfolding EntryLog.entries_to_apply EntryLog.get_entries_to_apply ◌>>=◌
  committed-Applies false es h =
      let e : [] ≡ es = cc in
      subst (λ (xs : List Entry). Applies (last_entry xs).index) e (inl refl)
  committed-Applies true es h = elim (Bool-cases (has_entries_to_apply l)) [
    | inl some_left ↦
        let (found, got, rest) =
          bind-eq-ok
            (EntryLog.get_entries l (first_not_applied_index l) (to_apply_index_limit l)
              max_entries_to_apply_size)
            must (rw some_left at h) in
        let e : found ≡ fetched es = fetches found rest in
        last-Applies es (
          get_entries-Within l v.valid (first_not_applied_index l) (to_apply_index_limit l)
            max_entries_to_apply_size es (got ∙ ap ok e))
    | inr none_left ↦
        let e : [] ≡ es = ok-injective [] es (rw none_left at h) in
        subst (λ (xs : List Entry). Applies (last_entry xs).index) e (inl refl)
  ]
    where
      fetches : (found : Fetched (List Entry)) → must found ≡ ok es → found ≡ fetched es
      fetches (fetched xs) k = ap fetched (ok-injective xs es k)
      fetches (failed err) k = cc

  snapshot_to-Applies : Applies (snapshot_to l.inmem.snapshot)
  snapshot_to-Applies = go l.inmem.snapshot refl
    where
      go : (o : Option Snapshot) → l.inmem.snapshot ≡ o → Applies (snapshot_to o)
      go none e = inl refl
      go (some ss) e = inr (v.snapshot_between ss e)

  -- The update of the log with an index that it can be applied up to, and what the update's entries and
  -- snapshot say.
  commit_update_lem :
      (cu : UpdateCommit)
      → Applies cu.applied_to
      → cu.stable_log_to ≡ (last_entry (EntryLog.entries_to_save l)).index
      → cu.stable_log_term ≡ (last_entry (EntryLog.entries_to_save l)).term
      → cu.stable_snapshot_to ≡ snapshot_to l.inmem.snapshot
      → (l' : EntryLog) × (EntryLog.commit_update l cu ≡ ok l')
        × (l'.committed ≡ l.committed)
        × (l'.applied ≡ (if ltb 0 cu.applied_to then cu.applied_to else l.applied))
        × (EntryLog.entries_to_save l' ≡ [])
        × (is_some_snapshot l'.inmem.snapshot ≡ false)
  unfolding EntryLog.commit_update ◌>>=◌
  commit_update_lem cu a to term ss =
      let (im1, e1, v1, s1, gone) = commit_update-IsSaved l.inmem v.valid.inmem cu to term ss in
      elim (Bool-cases (ltb 0 cu.applied_to)) [
        | inr none_left ↦ (
          record l { inmem = im1 },
          rw (EntryLog.commit_update, e1, none_left) refl,
          refl,
          rw none_left refl,
          entries_to_save-IsSaved im1 v1 s1,
          gone,
        )
        | inl pos ↦
            let (im2, e2, v2, s2, same) = applied_log_to-IsSaved im1 cu.applied_to v1 s1 in
            let in_range : (ltb cu.applied_to l.applied || ltb l.committed cu.applied_to) ≡ false =
              ground (arith, a) in
            (
              record l { inmem = im2; applied = cu.applied_to },
              rw (EntryLog.commit_update, e1, pos, in_range, e2) refl,
              refl,
              rw pos refl,
              entries_to_save-IsSaved im2 v2 s2,
              ap is_some_snapshot same ∙ gone,
            )
      ]

  -- What GetUpdate says of the snapshot and of the index to apply up to.
  update_commit-Applies :
      (r : Raft) (prev : Pb.State) (committed : List Entry)
      → r.log ≡ l
      → Applies (last_entry committed).index
      → ((get_update_commit (pending_update r prev committed)).stable_snapshot_to
          ≡ snapshot_to l.inmem.snapshot)
        × Applies (get_update_commit (pending_update r prev committed)).applied_to
  unfolding get_update_commit max
  update_commit-Applies r prev committed same a =
      subst
        (λ (k : EntryLog).
          ((get_update_commit
              (pending_update (record r { log = k }) prev committed)).stable_snapshot_to
            ≡ snapshot_to l.inmem.snapshot)
          × Applies
              (get_update_commit (pending_update (record r { log = k }) prev committed)).applied_to)
        (sym same) (go l.inmem.snapshot snapshot_to-Applies)
    where
      go :
          (o : Option Snapshot)
          → Applies (snapshot_to o)
          → ((if is_empty_snapshot (or_empty o) then 0 else (or_empty o).index) ≡ snapshot_to o)
            × Applies (
                if is_empty_snapshot (or_empty o)
                then (last_entry committed).index
                else max
                    (last_entry committed).index
                    (if is_empty_snapshot (or_empty o) then 0 else (or_empty o).index))
      go none b = (refl, a)
      go (some ss) b = ground (arith, a, b)

-- Once its state is on disk, a node does not ask for it again.
state_kept :
    (st prev : Pb.State)
    → (not (is_empty_state st)
        && not (
            is_state_equal st (
              if is_empty_state (if is_state_equal st prev then empty_state else st)
              then prev
              else (if is_state_equal st prev then empty_state else st))))
      ≡ false
state_kept st prev = ground arith

quiet :
    (p : Peer)
    → (not (is_empty_state (raft_state p.raft))
        && not (is_state_equal (raft_state p.raft) p.prev_state))
      ≡ false
    → is_some_snapshot p.raft.log.inmem.snapshot ≡ false
    → p.raft.msgs ≡ []
    → EntryLog.entries_to_save p.raft.log ≡ []
    → p.raft.ready_to_read ≡ []
    → has_update p false ≡ false
unfolding has_update
quiet p a b c d e = rw (has_update, a, b, c, d, e) refl

module _ (p : Peer) (v : IsReady p.raft.log) where
  -- After an update: nothing is left but entries to apply, and the log is applied up to the update.
  abbrev pub Done : Update → Type 0
  Done ud =
      (p' : Peer) × (commit p ud ≡ ok p')
      × (has_update p' false ≡ false)
      × (p'.raft.log.committed ≡ p.raft.log.committed)
      × (p'.raft.log.applied ≡ (
          if ltb 0 ud.update_commit.applied_to
          then ud.update_commit.applied_to
          else p.raft.log.applied))

  abbrev full : List Entry → Update
  full committed = record (pending_update p.raft p.prev_state committed) {
    update_commit = get_update_commit (pending_update p.raft p.prev_state committed);
  }

  commit-full :
      (committed : List Entry)
      → Applies p.raft.log v (last_entry committed).index
      → Done (full committed)
  unfolding commit has_update raft_state get_update_commit ◌>>=◌
  commit-full committed a =
      let (ss, b) = update_commit-Applies p.raft.log v p.raft p.prev_state committed refl a in
      let (l', e, same, applied, saved, gone) =
        commit_update_lem p.raft.log v (full committed).update_commit b refl refl ss in
      let st : Pb.State = raft_state p.raft in
      let ud_state : Pb.State = if is_state_equal st p.prev_state then empty_state else st in
      let prev : Pb.State = if is_empty_state ud_state then p.prev_state else ud_state in
      let kept = state_kept st p.prev_state in
      let kept' : (not (is_empty_state (record st { commit = l'.committed }))
            && not (is_state_equal (record st { commit = l'.committed }) prev))
          ≡ false =
        subst
          (λ (c : ℕ).
            (not (is_empty_state (record st { commit = c }))
              && not (is_state_equal (record st { commit = c }) prev))
            ≡ false)
          (sym same) kept in
      elim (Bool-cases (ltb 0 (length p.raft.ready_to_read))) [
        | inl reads ↦
            let p' : Peer = record {
              raft = record (p.raft) { msgs = []; ready_to_read = []; log = l' };
              prev_state = prev;
            } in
            (p', rw (reads, e) refl, quiet p' kept' gone refl saved refl, same, applied)
        | inr no_reads ↦
            let none_left : p.raft.ready_to_read ≡ [] =
              empty_of_length p.raft.ready_to_read (ground arith) in
            let p' : Peer = record {
              raft = record (p.raft) { msgs = []; log = l' };
              prev_state = prev;
            } in
            (p', rw (no_reads, e) refl, quiet p' kept' gone refl saved none_left, same, applied)
      ]

  -- What GetUpdate returns can be committed: Commit never panics on it, and afterwards HasUpdate finds
  -- nothing more to save, to send or to read; what is committed has been applied as far as the update
  -- said.
  pub get_update-commit : (more : Bool) (ud : Update) → get_update p more ≡ ok ud → Done ud
  unfolding get_update
  get_update-commit more ud h =
      let (committed, got, rest) =
        bind-eq-ok (if more then EntryLog.entries_to_apply p.raft.log else ok []) _ h in
      subst Done (ok-injective (full committed) ud rest)
        (commit-full committed (committed-Applies p.raft.log v more committed got))
