-- ===== src/Raft/Remote/Progress.antt =====
-- The invariant of internal/raft/remote.go, `match < next`, under every operation.
use dragonboat.Prelude.{
  ℕ, ◌+◌, ◌^◌, ◌≤◌, ◌<◌, ◌≡◌, ◌≢◌, ◌↔◌, ◌⊎◌, true, false, arith, Outcome, ok, panic,
}
use dragonboat.Raft.Remote.{
  Remote, RemoteStateType, become_retry, become_wait, wait_to_retry, become_replicate,
  become_snapshot, clear_pending_snapshot, try_update, progress, responded_to, decrease_to,
  is_paused, set_active, set_not_active,
}

-- Nothing is sent that is known to be there already, and the indices are far from wrapping around.
pub record IsValid (r : Remote) : Type 0 where
  pub behind : r.match < r.next
  pub match_fits : r.match + 1 < 2 ^ 64
  pub next_fits : r.next < 2 ^ 64
  pub snapshot_fits : r.snapshot_index + 1 < 2 ^ 64

-- The calls that the leader's code makes on a remote.
pub data Call : Type 0 where
  retry wait replicate respond clear activate deactivate unpause : Call
  snapshot : ℕ → Call
  update : ℕ → Call
  sent : ℕ → Call
  decrease : (rejected last : ℕ) → Call

unfoldable pub call : Call → Remote → Outcome Remote
call Call.retry r = ok (become_retry r)
call Call.wait r = ok (become_wait r)
call Call.replicate r = ok (become_replicate r)
call Call.respond r = ok (responded_to r)
call Call.clear r = ok (clear_pending_snapshot r)
call Call.activate r = ok (set_active r)
call Call.deactivate r = ok (set_not_active r)
call Call.unpause r = ok (wait_to_retry r)
call (Call.snapshot i) r = ok (become_snapshot r i)
call (Call.update i) r = ok (try_update r i).0
call (Call.sent i) r = progress r i
call (Call.decrease rejected last) r = ok (decrease_to r rejected last).0

-- What the leader knows when it makes a call: indices are far from wrapping around, what it sends
-- ends at or above `next - 1`, and a rejection is of an index above
-- `match` by a node whose log reaches `match`.
abbrev pub Allowed : Call → Remote → Type 0
Allowed (Call.snapshot i) r = i + 1 < 2 ^ 64
Allowed (Call.update i) r = i + 1 < 2 ^ 64
Allowed (Call.sent i) r = (r.next ≤ i + 1) × (i + 1 < 2 ^ 64)
Allowed (Call.decrease rejected last) r =
    (r.match < rejected) × (rejected < 2 ^ 64) × (r.match ≤ last) × (last + 1 < 2 ^ 64)
Allowed _ r = Unit

module _ (r : Remote) where
  -- What an acknowledgement of `index` does: the answer says whether it is news, `match` becomes the
  -- larger of the two, `next` never falls and ends above `index`, and a remote that made progress is
  -- no longer in the wait state.
  pub try_update_lem :
      (index : ℕ)
      → index + 1 < 2 ^ 64
      → (((try_update r index).1 ≡ true) ↔ (r.match < index))
        × (r.match ≤ (try_update r index).0.match)
        × (index ≤ (try_update r index).0.match)
        × (((try_update r index).0.match ≡ r.match) ⊎ ((try_update r index).0.match ≡ index))
        × (r.next ≤ (try_update r index).0.next)
        × (index < (try_update r index).0.next)
        × ((try_update r index).1 ≡ true → (try_update r index).0.state ≢ RemoteStateType.wait)
  unfolding try_update
  try_update_lem index h = ground arith

  -- A rejection that is taken moves `next` down: strictly, unless it is at its least value 1 already,
  -- so probing ends. A rejection that is not taken changes nothing.
  pub decrease_to_lem :
      (rejected last : ℕ)
      → IsValid r
      → last + 1 < 2 ^ 64
      → ((decrease_to r rejected last).1 ≡ false → (decrease_to r rejected last).0 ≡ r)
        × (1 ≤ (decrease_to r rejected last).0.next)
        × ((decrease_to r rejected last).0.next ≤ r.next)
        × ((decrease_to r rejected last).1 ≡ true
            → r.state ≢ RemoteStateType.replicate
            → ((decrease_to r rejected last).0.next < r.next) ⊎ (r.next ≡ 1))
  unfolding decrease_to
  decrease_to_lem rejected last v h = ground arith

  leaves :
      (c : Call) (r' : Remote)
      → r.state ≡ RemoteStateType.snapshot
      → call c r ≡ ok r'
      → ((r'.state ≡ RemoteStateType.snapshot) × (is_paused r' ≡ true))
        ⊎ ((c ≡ Call.retry)
            ⊎ (c ≡ Call.wait)
            ⊎ (c ≡ Call.replicate)
            ⊎ ((c ≡ Call.respond) × (r.snapshot_index ≤ r.match)))
  unfolding call become_retry become_wait become_replicate responded_to clear_pending_snapshot
      set_active set_not_active wait_to_retry become_snapshot try_update progress decrease_to
      is_paused
  leaves Call.retry r' s h = ground arith
  leaves c r' s h = ground arith

  -- While a snapshot is on its way, to send entries to the remote is a panic, and it stays paused: it leaves
  -- the state only by a call that resets it, or when `match` has reached the index of the snapshot.
  pub call-snapshot :
      (c : Call)
      → r.state ≡ RemoteStateType.snapshot
      → ((i : ℕ) → c ≡ Call.sent i → call c r ≡ panic)
        × ((r' : Remote)
            → call c r ≡ ok r'
            → ((r'.state ≡ RemoteStateType.snapshot) × (is_paused r' ≡ true))
              ⊎ ((c ≡ Call.retry)
                  ⊎ (c ≡ Call.wait)
                  ⊎ (c ≡ Call.replicate)
                  ⊎ ((c ≡ Call.respond) × (r.snapshot_index ≤ r.match))))
  unfolding call become_retry become_wait become_replicate responded_to clear_pending_snapshot
      set_active set_not_active wait_to_retry become_snapshot try_update progress decrease_to
      is_paused
  call-snapshot c s = (λ i e. rw e (ground arith), λ r' h. leaves c r' s h)
