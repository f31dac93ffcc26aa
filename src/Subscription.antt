-- ===== src/Subscription.antt =====
-- winrt/Projection.cpp, EventSubscription: the reports of a subscription on their way to its
-- ReportReceived handlers. AttributeSubscription has the same text with another type of report, so
-- the model is generic in it. mReportMutex splits each member function into atomic blocks; an event
-- below runs one block. The reports of one subscription come from the Matter event loop, one at a
-- time: that thread is `publishing` from the end of the locked block of Publish to the end of its
-- call of mReportReceived. The list of delegates is winrt::event, a library: of it the model has the
-- number of tokens that are out: they and the threads that hold one tell how many handlers it has.
-- Each call of mReportReceived is an entry of `delivered`, and of `heard` where there is a handler.
pub mod Queue
pub mod Flow
pub mod Publish
pub mod Heard
pub mod Order
pub mod Closing
pub mod Tests
use matter_winrt.Base.{
  ℕ, ◌+◌, ◌-◌, ◌^◌, ◌==◌, ltb, Bool, true, false, ◌||◌, Option, none, some, List, [], ◌∷◌, ◌++◌,
  not, drop, length, if◌then◌else◌, get_elem?, set, total,
}

-- A thread that adds the first handler, from its locked block to its return. The flag says that a
-- handler threw.
pub data Adder {ℓ} (R : Type ℓ) : Type ℓ where
  -- It delivers the reports that it took.
  draining : List R → Bool → Adder R
  -- A handler threw: it is about to take its own handler off.
  withdrawing : Adder R
  -- It has returned its token, or thrown.
  gone : Adder R

pub record Subscription {ℓ} (R : Type ℓ) : Type ℓ where
  -- mClose is not empty, mReportHandlerCount, mDrainingPendingReports, mPendingReports.
  pub close : Bool
  pub handler_count : ℕ
  pub draining_pending : Bool
  pub pending_reports : List R
  -- The threads in ReportReceived(handler) and in Publish.
  pub adders : List (Adder R)
  pub publishing : Option R
  -- What has been seen from outside: reports accepted by Publish, calls of mReportReceived, reports
  -- dropped from the full queue, tokens that callers hold, calls of mClose.
  pub published : List R
  pub delivered : List R
  -- The reports that reached a handler, and how many were handed over when there was none.
  pub heard : List R
  pub unheard : ℕ
  pub dropped : ℕ
  pub tokens : ℕ
  pub close_calls : ℕ

-- kMaximumPendingReports.
abbrev pub maximum_pending : ℕ
maximum_pending = 256

pub data Event {ℓ} (R : Type ℓ) : Type ℓ where
  -- ReportReceived(handler); ReportReceived(token); CloseAsync; the locked block of Publish.
  adds : Event R
  removes : Event R
  closes : Event R
  publishes : R → Event R
  -- The publishing thread calls mReportReceived.
  hands_over : Event R
  -- Adder i delivers one report, whose handlers throw or not; finds its reports delivered; takes its
  -- handler off.
  delivers : ℕ → Bool → Event R
  swaps : ℕ → Event R
  withdraws : ℕ → Event R

-- `--` on a size_t, which wraps below 0.
abbrev pub decrement : ℕ → ℕ
decrement n = if n == 0 then 2 ^ 64 - 1 else n - 1

module _ {ℓ} {R : Type ℓ} where
  -- The handler of an adder is registered until the adder is gone.
  abbrev pub is_holding : Adder R → ℕ
  is_holding gone = 0
  is_holding _ = 1

  -- mReportReceived has no handler.
  pub silent : Subscription R → Bool
  silent s = s.tokens + total is_holding s.adders == 0

  pub initial : Subscription R
  initial = record {
    close = true;
    handler_count = 0;
    draining_pending = false;
    pending_reports = [];
    adders = [];
    publishing = none;
    published = [];
    delivered = [];
    heard = [];
    unheard = 0;
    dropped = 0;
    tokens = 0;
    close_calls = 0;
  }

  -- The first locked block of ReportReceived(handler).
  pub add : Subscription R → Subscription R
  add s =
      let q = record s { handler_count = s.handler_count + 1 } in
      if ltb 1 q.handler_count then record q { tokens = q.tokens + 1 } else record q {
        draining_pending = true;
        pending_reports = [];
        adders = q.adders ++ draining q.pending_reports false ∷ [];
      }

  -- ReportReceived(token).
  pub remove : Subscription R → Subscription R
  remove s =
      let q = record s { tokens = s.tokens - 1 } in
      if ltb 0 q.handler_count then record q { handler_count = q.handler_count - 1 } else q

  pub close_async : Subscription R → Subscription R
  close_async s = if s.close then record s { close = false; close_calls = s.close_calls + 1 } else s

  -- mPendingReports.push_back, behind the erasure of the oldest report of a full queue.
  pub queue : R → Subscription R → Subscription R
  queue r s =
      if length s.pending_reports == maximum_pending
      then record s {
        pending_reports = drop 1 s.pending_reports ++ r ∷ [];
        dropped = s.dropped + 1;
      }
      else record s { pending_reports = s.pending_reports ++ r ∷ [] }

  -- The locked block of Publish.
  pub publish : R → Subscription R → Subscription R
  unfolding queue
  publish r s =
      let q = record s { published = s.published ++ r ∷ [] } in
      if not s.close
      then s
      else if s.handler_count == 0 || s.draining_pending
      then queue r q
      else record q { publishing = some r }

  -- One round of the loop of ReportReceived(handler) over the reports that it took.
  pub deliver : ℕ → R → List R → Bool → Subscription R → Subscription R
  deliver i r rs error s = record s {
    delivered = s.delivered ++ r ∷ [];
    heard = if silent s then s.heard else s.heard ++ r ∷ [];
    unheard = if silent s then s.unheard + 1 else s.unheard;
    adders = set s.adders i (draining rs error);
  }

  -- Its second locked block, and what follows where the queue is empty.
  pub swap : ℕ → Bool → Subscription R → Subscription R
  swap i error s = elim s.pending_reports [
    | [] ↦
        let q = record s { draining_pending = false } in
        if error
        then record q { adders = set q.adders i withdrawing }
        else record q { adders = set q.adders i gone; tokens = q.tokens + 1 }
    | r ∷ rs ↦ record s { pending_reports = []; adders = set s.adders i (draining (r ∷ rs) error) }
  ]

  -- Its last locked block, after a handler threw.
  pub withdraw : ℕ → Subscription R → Subscription R
  withdraw i s = record s {
    handler_count = decrement s.handler_count;
    adders = set s.adders i gone;
  }

  -- The event loop publishes one report at a time.
  publish_when : Option R → R → Subscription R → Subscription R
  publish_when none r s = publish r s
  publish_when (some q) r s = s

  pub hand_over : Option R → Subscription R → Subscription R
  hand_over none s = s
  hand_over (some r) s = record s {
    delivered = s.delivered ++ r ∷ [];
    heard = if silent s then s.heard else s.heard ++ r ∷ [];
    unheard = if silent s then s.unheard + 1 else s.unheard;
    publishing = none;
  }

  -- An adder's event runs only where that adder stands at its beginning.
  pub deliver_at : Option (Adder R) → ℕ → Bool → Subscription R → Subscription R
  deliver_at (some (draining (r ∷ rs) error)) i throws s = deliver i r rs (error || throws) s
  deliver_at _ i throws s = s

  pub swap_at : Option (Adder R) → ℕ → Subscription R → Subscription R
  swap_at (some (draining [] error)) i s = swap i error s
  swap_at _ i s = s

  pub withdraw_at : Option (Adder R) → ℕ → Subscription R → Subscription R
  withdraw_at (some withdrawing) i s = withdraw i s
  withdraw_at _ i s = s

  pub step : Subscription R → Event R → Subscription R
  unfolding add remove close_async publish publish_when hand_over deliver_at swap_at withdraw_at
      deliver swap withdraw
  step s adds = add s
  step s removes = remove s
  step s closes = close_async s
  step s (publishes r) = publish_when s.publishing r s
  step s hands_over = hand_over s.publishing s
  step s (delivers i throws) = deliver_at (get_elem? s.adders i) i throws s
  step s (swaps i) = swap_at (get_elem? s.adders i) i s
  step s (withdraws i) = withdraw_at (get_elem? s.adders i) i s

  pub run : Subscription R → List (Event R) → Subscription R
  run s [] = s
  run s (e ∷ es) = run (step s e) es
