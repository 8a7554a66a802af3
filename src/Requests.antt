-- ===== src/Requests.antt =====
-- requests.go: the requests of a node that wait for their results. What a request is told goes through
-- its channel or its handler; here it is recorded, the request with its result. The pool that
-- recycles the request objects is not modelled.
pub mod Proposals
pub mod Node
pub mod Shards
pub mod Reads
pub mod ConfigChanges
use dragonboat.Prelude.{ℕ, ◌/◌, List, ◌==◌, if◌then◌else◌, Outcome, ok, panic}
use dragonboat.Pb.{Entry, EntryType}
use dragonboat.Client.{ClientSession}

pub data RequestResultCode : Type 0 where
  request_timeout request_completed request_terminated request_rejected : RequestResultCode

pub record RequestResult : Type 0 where
  pub code : RequestResultCode
  pub result : ℕ

abbrev pub get_terminated_result : RequestResult
get_terminated_result = record { code = RequestResultCode.request_terminated; result = 0 }

abbrev pub get_timeout_result : RequestResult
get_timeout_result = record { code = RequestResultCode.request_timeout; result = 0 }

-- RequestState
pub record RequestState : Type 0 where
  pub key : ℕ
  pub client_id : ℕ
  pub series_id : ℕ
  pub deadline : ℕ

pub record LogicalClock : Type 0 where
  pub tick : ℕ
  pub last_gc_time : ℕ
  pub gc_tick : ℕ
  pub tick_in_millisecond : ℕ

-- A timeout is a number of nanoseconds; the code's conversion of a negative duration is not modelled.
abbrev pub get_timeout_tick : LogicalClock → ℕ → Outcome ℕ
get_timeout_tick p timeout =
    if p.tick_in_millisecond == 0 then panic else ok (timeout / 1_000_000 / p.tick_in_millisecond)

-- The entry that `propose` makes. `prepareProposalPayload` copies the command.
abbrev pub proposal_entry : ClientSession → (key : ℕ) → (cmd : List ℕ) → Entry
proposal_entry session key cmd = record {
  term = 0;
  index = 0;
  type = EntryType.application_entry;
  key = key;
  client_id = session.client_id;
  series_id = session.series_id;
  responded_to = session.responded_to;
  cmd = cmd;
}
