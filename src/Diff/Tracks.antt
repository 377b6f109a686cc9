-- ===== src/Diff/Tracks.antt =====
-- The map `working` of `diffPlan` holds exactly the rows read and the assertions inserted, less what
-- has been noted as taken out.
use fgraph.Base.{◌≡◌, ◌⊎◌, inl, inr, ap, true, false, List, map, In, map-In, distinct}
use fgraph.Fact.{RawFact}
use fgraph.Plan.{PlannedFact}
use fgraph.Diff.{stored, planned, WorkingFact, from_raw, from_planned, DiffState}
use fgraph.Diff.Noted.{dropped, AreNoted}

abbrev pub Source : List RawFact → List PlannedFact → WorkingFact → Type 0
Source current inserted w = In w (map from_raw current) ⊎ In w (map from_planned inserted)

pub Source-stored :
    (current : List RawFact) (inserted : List PlannedFact) (w : WorkingFact) (r : RawFact)
    → Source current inserted w
    → w.origin ≡ stored r
    → In r current × (w ≡ from_raw r)
unfolding from_raw from_planned
Source-stored current inserted w r (inl m) e =
    let (q, n, p) = map-In from_raw w current m in
    let same : q ≡ r = cc (e, ap (λ (x : WorkingFact). x.origin) p) in
    (rw (← same) n, rw (← same) p)
Source-stored current inserted w r (inr m) e =
    let (g, n, p) = map-In from_planned w inserted m in
    absurd (cc (e, ap (λ (x : WorkingFact). x.origin) p))

pub Source-planned :
    (current : List RawFact) (inserted : List PlannedFact) (w : WorkingFact) (f : PlannedFact)
    → Source current inserted w
    → w.origin ≡ planned f
    → In f inserted × (w ≡ from_planned f)
unfolding from_raw from_planned
Source-planned current inserted w f (inr m) e =
    let (q, n, p) = map-In from_planned w inserted m in
    let same : q ≡ f = cc (e, ap (λ (x : WorkingFact). x.origin) p) in
    (rw (← same) n, rw (← same) p)
Source-planned current inserted w f (inl m) e =
    let (g, n, p) = map-In from_raw w current m in
    absurd (cc (e, ap (λ (x : WorkingFact). x.origin) p))

pub record Tracks (current : List RawFact) (st : DiffState) : Type 0 where
  pub noted : AreNoted current st
  pub sound :
      (w : WorkingFact)
      → In w st.working
      → Source current st.inserted w × (dropped st w.origin ≡ false)
  pub stored_in :
      (r : RawFact) → In r current → dropped st (stored r) ≡ false → In (from_raw r) st.working
  pub planned_in :
      (f : PlannedFact)
      → In f st.inserted
      → dropped st (planned f) ≡ false
      → In (from_planned f) st.working
  pub orders : distinct (λ f. f.order) st.inserted ≡ true
  pub canceled :
      (f : PlannedFact)
      → dropped st (planned f) ≡ true
      → (g : PlannedFact) × In g st.inserted × (g.order ≡ f.order)
