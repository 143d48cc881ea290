-- ===== src/Report/History.antt =====
-- src/linker_report.rs: over a history of fetched ops and reports, each op is counted once.
use h2hc_linker.Base.{
  ℕ, ◌+◌, ◌≤◌, ◌≡◌, refl, List, [], ◌∷◌, ◌++◌, if◌then◌else◌, ltb, nat_eq, arith, ◌==◌, ◌&&◌,
  Bool-cases, inl, inr,
}
use h2hc_linker.Base.Lists.{length, length-append}
use h2hc_linker.Base.Maps.{lookup}
use h2hc_linker.Report.{
  SpaceId, Cmd, fetched_op_cmd, ReportHost, LinkerReport, capacity, fetched_op, or_default,
  aggregate, process_reports,
}
use h2hc_linker.Report.Totals.{count_of, totals_lem, process_reports_lem}

pub data Event : Type 0 where
  fetches : SpaceId → ℕ → Event
  processes : Event

module _ (host : ReportHost) where
  unfoldable pub step : Event → LinkerReport → LinkerReport
  step (fetches s n) r = fetched_op s n r
  step processes r = process_reports host r

  -- The state after a history; its latest event stands first.
  unfoldable pub after : List Event → LinkerReport → LinkerReport
  after [] r = r
  after (e ∷ earlier) r = step e (after earlier r)

  -- The ops of the space that found room in the channel.
  unfoldable pub accepted : SpaceId → List Event → LinkerReport → ℕ
  accepted t [] r = 0
  accepted t (fetches s n ∷ earlier) r =
      let before = accepted t earlier r in
      if ltb (length (after earlier r).cmds) capacity && s == t then 1 + before else before
  accepted t (processes ∷ earlier) r = accepted t earlier r

  -- The sum of the op counts of the reports on the space.
  unfoldable pub reported : SpaceId → List Event → LinkerReport → ℕ
  reported t [] r = 0
  reported t (fetches s n ∷ earlier) r = reported t earlier r
  reported t (processes ∷ earlier) r =
      (or_default (lookup t (aggregate (after earlier r).cmds []))).0 + reported t earlier r

  count_of-append :
      (t : SpaceId) (xs ys : List Cmd) → count_of t (xs ++ ys) ≡ count_of t xs + count_of t ys
  count_of-append t [] ys = omega arith
  count_of-append t (fetched_op_cmd s n ∷ xs) ys = ground (arith, count_of-append t xs ys)

  -- Every op that found room is counted in a report or waits in the channel, once; the channel never
  -- holds more than its capacity, so that a count never overflows.
  pub reported-accepted :
      (t : SpaceId) (h : List Event) (r : LinkerReport)
      → r.cmds ≡ []
      → (length (after h r).cmds ≤ capacity)
        × (reported t h r + count_of t (after h r).cmds ≡ accepted t h r)
  unfolding after step fetched_op reported accepted
  reported-accepted t [] r e = rw e (omega arith, refl)
  reported-accepted t (fetches s n ∷ earlier) r e =
      let (few, counted) = reported-accepted t earlier r e in
      let cmds = (after earlier r).cmds in
      let new = fetched_op_cmd s n ∷ [] in
      elim (Bool-cases (ltb (length cmds) capacity)) [
        | inl q ↦ rw q (
          ground (arith, q, length-append cmds new),
          ground (arith, counted, count_of-append t cmds new),
        )
        | inr q ↦ rw q (few, counted)
      ]
  reported-accepted t (processes ∷ earlier) r e =
      let (few, counted) = reported-accepted t earlier r e in
      let emptied = (process_reports_lem host (after earlier r) few).0 in
      let entry = totals_lem t (after earlier r).cmds few in
      rw (emptied, entry) (omega arith, ground (arith, counted))
