-- ===== src/Diff/Noted.antt =====
-- What `diffPlan` notes of the entries that it takes out of its map: which sources are dropped, and
-- which rows are kept by key for a later assertion of the same value.
use fgraph.Base.{
  ℕ, ◌≡◌, ◌≢◌, inl, inr, refl, sym, ap, ◌∙◌, Bool, true, false, not, ◌||◌, List, [], ◌∷◌, arith,
  ◌==◌, ==_iff, any, In, In-keep, In-keep_of, Bool-cases, distinct, distinct-eq, if◌then◌else◌,
}
use fgraph.Fact.{RawFact}
use fgraph.Diff.{
  Origin, stored, planned, WorkingFact, FactKey, key_of, from_raw, DiffState, delete_id, delete_key,
  note_removed, note_all,
}

-- The row is to be retracted, or the assertion is canceled.
abbrev pub dropped : DiffState → Origin → Bool
dropped st (stored r) = any (λ x. x.id == r.id) st.retracted
dropped st (planned f) = any (λ order. order == f.order) st.canceled

abbrev pub same_origin : Origin → Origin → Bool
same_origin (stored r) (stored q) = r.id == q.id
same_origin (planned f) (planned g) = f.order == g.order
same_origin (stored r) (planned g) = false
same_origin (planned f) (stored q) = false

pub any-delete_id :
    (rows : List RawFact) (i j : ℕ)
    → any (λ x. x.id == j) (delete_id rows i)
      ≡ (if i == j then false else any (λ x. x.id == j) rows)
unfolding delete_id
any-delete_id [] i j = ground arith
any-delete_id (r ∷ rows) i j = ground (arith, any-delete_id rows i j)

dropped-note_removed :
    (st : DiffState) (w : WorkingFact) (o : Origin)
    → dropped (note_removed st w) o ≡ (same_origin w.origin o || dropped st o)
unfolding note_removed
dropped-note_removed st w o = go w.origin o refl
  where
    go :
        (p o : Origin)
        → w.origin ≡ p
        → dropped (note_removed st w) o ≡ (same_origin p o || dropped st o)
    go (stored r) (stored q) e =
        rw (e, note_removed) (ground (arith, any-delete_id st.retracted r.id q.id))
    go (planned f) (planned g) e = rw (e, note_removed)
    go (stored r) (planned g) e = rw (e, note_removed)
    go (planned f) (stored q) e = rw (e, note_removed)

pub working-note_all :
    (st : DiffState) (ws : List WorkingFact) → (note_all st ws).working ≡ st.working
unfolding note_all
working-note_all st [] = refl
working-note_all st (w ∷ ws) = working-note_all (note_removed st w) ws ∙ ground arith

pub inserted-note_all :
    (st : DiffState) (ws : List WorkingFact) → (note_all st ws).inserted ≡ st.inserted
unfolding note_all
inserted-note_all st [] = refl
inserted-note_all st (w ∷ ws) = inserted-note_all (note_removed st w) ws ∙ ground arith

pub dropped-note_all :
    (st : DiffState) (ws : List WorkingFact) (o : Origin)
    → dropped (note_all st ws) o ≡ (any (λ w. same_origin w.origin o) ws || dropped st o)
unfolding note_all
dropped-note_all st [] o = refl
dropped-note_all st (w ∷ ws) o =
    ground (arith, dropped-note_all (note_removed st w) ws o, dropped-note_removed st w o)

-- The rows noted come from the rows read, and each key noted belongs to a row that is still noted.
pub record AreNoted (current : List RawFact) (st : DiffState) : Type 0 where
  pub rows : (r : RawFact) → In r st.retracted → In r current
  pub keys :
      (k : FactKey) (id : ℕ)
      → In (k, id) st.retract_keys
      → (r : RawFact) × In r st.retracted × (r.id ≡ id) × (k ≡ key_of (from_raw r))

In-put_id :
    (current : List RawFact) (r x : RawFact) (rows : List RawFact)
    → distinct (λ f. f.id) current ≡ true
    → ((y : RawFact) → In y rows → In y current)
    → In r current
    → In x rows
    → In x (r ∷ delete_id rows r.id)
unfolding delete_id
In-put_id current r x rows unique known here_r m = elim (Bool-cases (x.id == r.id)) [
  | inl same ↦
      inl
        (distinct-eq (λ f. f.id) x r current unique (known x m) here_r ((==_iff x.id r.id).0 same))
  | inr other ↦ inr (In-keep_of (λ y. not (y.id == r.id)) x rows m (rw other))
]

delete_id-In :
    (x : RawFact) (rows : List RawFact) (id : ℕ)
    → In x (delete_id rows id)
    → In x rows × (x.id ≢ id)
unfolding delete_id
delete_id-In x rows id h =
    let (m, t) = In-keep (λ y. not (y.id == id)) x rows h in (m, λ e. ground arith)

module _ (current : List RawFact) (unique : distinct (λ f. f.id) current ≡ true) where
  note_removed-AreNoted :
      (st : DiffState) (w : WorkingFact)
      → ((r : RawFact) → w.origin ≡ stored r → In r current × (w ≡ from_raw r))
      → AreNoted current st
      → AreNoted current (note_removed st w)
  unfolding note_removed delete_key
  note_removed-AreNoted st w source h = go w.origin refl
    where
      rows-of :
          (r x : RawFact) → In r current → In x (r ∷ delete_id st.retracted r.id) → In x current
      rows-of r x m (inl e) = rw e m
      rows-of r x m (inr k) = h.rows x (delete_id-In x st.retracted r.id k).0

      keys-of :
          (r : RawFact) (k : FactKey) (id : ℕ)
          → In r current
          → w ≡ from_raw r
          → In (k, id) ((key_of w, r.id) ∷ delete_key st.retract_keys (key_of w))
          → (q : RawFact) × In q (r ∷ delete_id st.retracted r.id)
            × (q.id ≡ id)
            × (k ≡ key_of (from_raw q))
      keys-of r k id m e (inl p) = (
        r,
        inl refl,
        sym (ap (λ (x : FactKey × ℕ). x.1) p),
        ap (λ (x : FactKey × ℕ). x.0) p ∙ ap key_of e,
      )
      keys-of r k id m e (inr p) =
          let (q, n, i, s) = h.keys k id (In-keep _ (k, id) st.retract_keys p).0 in
          (q, In-put_id current r q st.retracted unique h.rows m n, i, s)

      go : (o : Origin) → w.origin ≡ o → AreNoted current (note_removed st w)
      go (planned f) e = rw (e, note_removed) (record { rows = h.rows; keys = h.keys })
      go (stored r) e =
          let (m, p) = source r e in
          rw (e, note_removed)
            (record { rows = λ x. rows-of r x m; keys = λ k id. keys-of r k id m p })

  pub note_all-AreNoted :
      (st : DiffState) (ws : List WorkingFact)
      → ((w : WorkingFact) (r : RawFact)
          → In w ws
          → w.origin ≡ stored r
          → In r current × (w ≡ from_raw r))
      → AreNoted current st
      → AreNoted current (note_all st ws)
  unfolding note_all
  note_all-AreNoted st [] source h = h
  note_all-AreNoted st (w ∷ ws) source h =
      note_all-AreNoted (note_removed st w) ws (λ x r m. source x r (inr m))
        (note_removed-AreNoted st w (λ r. source w r (inl refl)) h)
