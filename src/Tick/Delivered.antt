-- ===== src/Tick/Delivered.antt =====
-- What the provider receives from a tick source.
use pricefeeder.Base.{◌≤◌, ◌≡◌, Option, none, some, List, [], ◌∷◌, ◌++◌, ok, length}
use pricefeeder.Tick.{
  Batch, TickMode, sending, returned, done_closed, tick_stopped, TickSource, TickEvent, tick, stamp,
}

module _ {F : Type 0} where
  -- The batches of the ticks whose fetch succeeded, in order.
  abbrev pub batches : List (TickEvent F) → List (Batch F)
  batches [] = []
  batches (tick (ok prices) clock ∷ events) = stamp clock prices [] ∷ batches events
  batches (_ ∷ events) = batches events

  -- What was fetched and has not been sent.
  abbrev pub unsent : TickMode F → List (Batch F) → List (Batch F)
  unsent (sending batch) dropped = batch ∷ []
  unsent _ dropped = dropped

  -- Before the loop returns nothing is dropped and no deferred call has run; then both have.
  abbrev pub Loop : TickMode F → TickSource F → Type 0
  Loop returned s = (length s.dropped ≤ 1) × (s.exits ≡ done_closed ∷ tick_stopped ∷ [])
  Loop _ s = (s.dropped ≡ []) × (s.exits ≡ [])

  abbrev delivered : TickMode F → TickSource F → List (Batch F)
  delivered m s = s.sent ++ unsent m s.dropped

  -- What one select does to them, if it waits for the event.
  abbrev AfterStep : TickMode F → TickSource F → TickEvent F → Option (TickSource F) → Type 0
  AfterStep m s event none = Unit
  AfterStep m s event (some n) =
      (delivered n.mode n ≡ delivered m s ++ batches (event ∷ [])) × Loop n.mode n

  abbrev AfterRun : TickSource F → List (TickEvent F) → Option (TickSource F) → Type 0
  AfterRun s events none = Unit
  AfterRun s events (some l) =
      (delivered l.mode l ≡ delivered s.mode s ++ batches events) × Loop l.mode l
