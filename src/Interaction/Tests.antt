-- ===== src/Interaction/Tests.antt =====
-- The interactions of winrt/Projection.cpp on concrete callbacks; values are numbers.
use matter_winrt.Base.{
  ℕ, zero, suc, ◌*◌, ◌&&◌, ◌≡◌, refl, Bool, true, false, not, if◌then◌else◌, ok, err, none, some,
  List, [], ◌∷◌, is_some, All, arith,
}
use matter_winrt.Chip.{no_error, timeout, busy, is_error}
use matter_winrt.Poll.{poll}
use matter_winrt.Interaction.OneShot
use matter_winrt.Interaction.Write
use matter_winrt.Interaction.Invoke
use matter_winrt.Interaction.Read
use matter_winrt.Interaction.EventRead

-- A read that fails after its value has come.
abbrev late_failure : List (OneShot.Callback ℕ)
late_failure =
    OneShot.connected no_error ∷ OneShot.attribute_read 4 ∷ OneShot.read_failed timeout ∷ []

late_failure-Succeeds : OneShot.outcome (OneShot.run OneShot.initial late_failure) ≡ some no_error
late_failure-Succeeds = OneShot.first_result_wins late_failure

abbrev sent : Write.Connection
sent = record { made = true; next = no_error; put = no_error; send = no_error }

-- The first path is refused, the second is not.
abbrev half_written : List Write.Callback
half_written =
    Write.connected sent ∷ Write.responded busy ∷ Write.responded no_error ∷ Write.done ∷ []

write_success_iff_example :
    ((Write.run Write.initial half_written).complete ≡ Write.any_end half_written)
    × (((Write.run Write.initial half_written).complete
          && not (is_error (Write.run Write.initial half_written).result))
        ≡ (Write.any_done half_written && not (Write.any_failure half_written)))
write_success_iff_example = Write.write_success_iff half_written (tt, (tt, (tt, (tt, tt))))

abbrev config : Read.Config
config = record { subscription = false; reporting = true }

abbrev report : ℕ → Bool → Read.Report ℕ
report n throws = record { status = no_error; payload = some (some n); throws = throws }

-- Two reports, the second of which the report callback refuses, and a failure after Close.
abbrev reads : List (Read.Callback ℕ)
reads =
    Read.connected true no_error
    ∷ Read.reported (report 3 false)
    ∷ Read.reported (report 4 true)
    ∷ Read.closes
    ∷ Read.failed timeout
    ∷ []

-- The value comes after the first wait.
abbrev heard_at : ℕ → List (Read.Callback ℕ)
heard_at zero = Read.connected true no_error ∷ []
heard_at (suc k) = Read.connected true no_error ∷ Read.reported (report 3 false) ∷ Read.done ∷ []

abbrev seen : ℕ → Read.Waiting.Observation ℕ
seen k = record { cancelled = false; now = k * 100; heard = heard_at k }

seen-Waits : Read.Waiting.Waits config seen 30000
seen-Waits k e = omega arith

read_attribute_returns_example :
    is_some (Read.Waiting.read_attribute config seen 30000 false 0 301) ≡ true
read_attribute_returns_example =
    Read.Waiting.read_attribute_returns config seen 30000 false 0 300 seen-Waits (omega arith)

heard-CarriesError : (k : ℕ) → All (Read.Outcome.CarriesError config) (seen k).heard
heard-CarriesError zero = (tt, tt)
heard-CarriesError (suc k) = (tt, (tt, (tt, tt)))

three_read : Read.Waiting.read_attribute config seen 30000 false 0 2 ≡ some (Read.Waiting.value 3)
unfolding Read.Waiting.read_attribute Read.Waiting.state_at Read.Waiting.round_at Read.Waiting.round
    Read.Waiting.answer poll Read.run Read.initial Read.step Read.handle_connected
    Read.on_attribute_data Read.on_done Read.fail
three_read = refl

read_attribute_value_example :
    (k : ℕ) × (Read.Outcome.ended config (seen k).heard ≡ true)
    × (Read.Outcome.failed_open config (seen k).heard ≡ false)
    × (Read.Outcome.latest config none (Read.Outcome.decoded config (seen k).heard) ≡ some 3)
read_attribute_value_example =
    Read.Waiting.read_attribute_value config seen 30000 false 0 2 3 heard-CarriesError three_read

abbrev event_reads : List (EventRead.Callback ℕ)
event_reads =
    EventRead.connected true no_error
    ∷ EventRead.reported (record { status = none; payload = some (some 8); throws = false })
    ∷ EventRead.reported (record { status = some busy; payload = none; throws = false })
    ∷ EventRead.done
    ∷ []

abbrev command : Invoke.Config
command = record { endpoint = 1; cluster = 6; response_command = some 2; response_data = true }

abbrev answer : Invoke.Response ℕ
answer = record {
  endpoint = 1;
  cluster = 6;
  command = 2;
  status = no_error;
  payload = some (some 11);
}

abbrev answered : List (Invoke.Callback ℕ)
answered =
    Invoke.connected (record {
      made = true;
      prepare = no_error;
      writer = true;
      next = no_error;
      copy = no_error;
      finish_command = no_error;
      send = no_error;
    })
    ∷ Invoke.responded answer
    ∷ []

answered-Succeeds :
    (Invoke.step 0 command
      (Invoke.run 0 command (Invoke.initial 0 command) answered)
      Invoke.done).result
    ≡ no_error
unfolding Invoke.run Invoke.initial Invoke.step Invoke.handle_connected Invoke.on_response
    Invoke.on_done Invoke.finish Invoke.refuses
answered-Succeeds = refl

success_has_one_answer_example :
    (q : Invoke.Response ℕ) × (Invoke.Answer.responses answered ≡ q ∷ [])
    × Invoke.Answer.Matches 0 command 2 q
    × ((Invoke.step 0 command
          (Invoke.run 0 command (Invoke.initial 0 command) answered)
          Invoke.done).value
        ≡ Invoke.Answer.decoded 0 q.payload)
    × (is_some
          (Invoke.step 0 command
            (Invoke.run 0 command (Invoke.initial 0 command) answered)
            Invoke.done).value
        ≡ true)
success_has_one_answer_example =
    Invoke.Answer.success_has_one_answer 0 command 2 answered refl (tt, (tt, tt)) answered-Succeeds

abbrev reading : EventRead.Config
reading = EventRead.Waiting.reading

read_events_outcome_example : EventRead.Waiting.read_events (ok tt) false no_error event_reads ≡ (
    if not (EventRead.Outcome.ended reading event_reads)
    then err EventRead.Waiting.timed_out
    else if EventRead.Outcome.failed_open reading event_reads
    then err (
        EventRead.Waiting.chip
          (EventRead.run reading (EventRead.initial reading) event_reads).result)
    else ok (EventRead.Outcome.decoded reading event_reads))
read_events_outcome_example =
    EventRead.Waiting.read_events_outcome event_reads (tt, (tt, (tt, (tt, tt))))
