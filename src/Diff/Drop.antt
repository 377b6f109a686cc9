-- ===== src/Diff/Drop.antt =====
-- Entries that are deleted from the map of `diffPlan` and noted keep the map in step.
use fgraph.Base.{
  ◌≡◌, ◌⊎◌, inl, inr, refl, sym, ap, ◌∙◌, Bool, true, false, not, ◌||◌, List, arith, ==_iff, keep,
  any, In, In-keep, In-keep_of, any-In, any_of_In, Bool-cases, distinct, distinct-eq,
}
use fgraph.Fact.{RawFact}
use fgraph.Plan.{PlannedFact}
use fgraph.Diff.{
  Origin, stored, planned, WorkingFact, from_raw, from_planned, DiffState, drop_entries,
}
use fgraph.Diff.Noted.{
  dropped, same_origin, working-note_all, inserted-note_all, dropped-note_all, note_all-AreNoted,
}
use fgraph.Diff.Tracks.{Source, Source-stored, Source-planned, Tracks}

module _ (current : List RawFact) (unique : distinct (λ f. f.id) current ≡ true) where
  -- One source is the source of one entry.
  one-Source :
      (inserted : List PlannedFact) (v w : WorkingFact)
      → distinct (λ f. f.order) inserted ≡ true
      → Source current inserted v
      → Source current inserted w
      → same_origin v.origin w.origin ≡ true
      → v ≡ w
  one-Source inserted v w orders sv sw same = go v.origin w.origin refl refl same
    where
      go : (o p : Origin) → v.origin ≡ o → w.origin ≡ p → same_origin o p ≡ true → v ≡ w
      go (stored r) (stored q) d e h =
          let (mr, vr) = Source-stored current inserted v r sv d in
          let (mq, wq) = Source-stored current inserted w q sw e in
          let rq = distinct-eq (λ f. f.id) r q current unique mr mq ((==_iff r.id q.id).0 h) in
          vr ∙ ap from_raw rq ∙ sym wq
      go (planned f) (planned g) d e h =
          let (mf, vf) = Source-planned current inserted v f sv d in
          let (mg, wg) = Source-planned current inserted w g sw e in
          let fg =
            distinct-eq (λ x. x.order) f g inserted orders mf mg ((==_iff f.order g.order).0 h) in
          vf ∙ ap from_planned fg ∙ sym wg
      go (stored r) (planned g) d e h = cc
      go (planned f) (stored q) d e h = cc

  module _ (hit : WorkingFact → Bool) (st : DiffState) (t : Tracks current st) where
    hits : List WorkingFact
    hits = keep hit st.working

    -- An entry that stays has no hit with its source.
    not_hit :
        (w : WorkingFact)
        → In w st.working
        → hit w ≡ false
        → any (λ v. same_origin v.origin w.origin) hits ≡ false
    unfolding hits
    not_hit w m stays = elim (Bool-cases (any (λ v. same_origin v.origin w.origin) hits)) [
      | inr none_hit ↦ none_hit
      | inl some_hit ↦
          let (v, n, same) = any-In (λ v. same_origin v.origin w.origin) hits some_hit in
          let (nv, hv) = In-keep hit v st.working n in
          let e = one-Source st.inserted v w t.orders (t.sound v nv).0 (t.sound w m).0 same in
          cc (ap hit e)
    ]

    -- An entry whose source is not dropped afterwards was no hit.
    stays_of :
        (w : WorkingFact)
        → In w st.working
        → same_origin w.origin w.origin ≡ true
        → any (λ v. same_origin v.origin w.origin) hits ≡ false
        → In w (keep (λ x. not (hit x)) st.working)
    unfolding hits
    stays_of w m self none_hit = elim (Bool-cases (hit w)) [
      | inr stays ↦ In-keep_of (λ x. not (hit x)) w st.working m (rw stays)
      | inl picked ↦ absurd (
          ground (
            arith,
            any_of_In (λ v. same_origin v.origin w.origin) w hits
                (In-keep_of hit w st.working m picked) self,
          ))
    ]

    dropped-drop_entries :
        (o : Origin)
        → dropped (drop_entries hit st) o ≡ (any (λ v. same_origin v.origin o) hits || dropped st o)
    unfolding drop_entries hits
    dropped-drop_entries o = rw dropped-note_all (plain o)
      where
        base : DiffState
        base = record st { working = keep (λ x. not (hit x)) st.working }

        plain :
            (o : Origin)
            → (any (λ v. same_origin v.origin o) (keep hit st.working) || dropped base o)
              ≡ (any (λ v. same_origin v.origin o) (keep hit st.working) || dropped st o)
        plain (stored r) = refl
        plain (planned f) = refl

    self_origin : (o : Origin) → same_origin o o ≡ true
    self_origin (stored r) = ground arith
    self_origin (planned f) = ground arith

    In-drop :
        (w : WorkingFact) → In w (drop_entries hit st).working → In w st.working × (hit w ≡ false)
    unfolding drop_entries
    In-drop w m =
        let (n, h) = In-keep (λ x. not (hit x)) w st.working (rw working-note_all at m) in
        (n, ground arith)

    drop_of :
        (w : WorkingFact)
        → (dropped st w.origin ≡ false → In w st.working)
        → dropped (drop_entries hit st) w.origin ≡ false
        → In w (drop_entries hit st).working
    unfolding drop_entries
    drop_of w back h =
        let e = sym (dropped-drop_entries w.origin) ∙ h in
        rw working-note_all (stays_of w (back (ground arith)) (self_origin w.origin) (ground arith))

    drop_sound :
        (w : WorkingFact)
        → In w (drop_entries hit st).working
        → Source current (drop_entries hit st).inserted w
          × (dropped (drop_entries hit st) w.origin ≡ false)
    drop_sound w m =
        let (n, h) = In-drop w m in
        let (s, d) = t.sound w n in
        (
          unfold drop_entries in rw inserted-note_all s,
          rw dropped-drop_entries (rw (not_hit w n h) d),
        )

    drop-canceled :
        (f : PlannedFact)
        → dropped (drop_entries hit st) (planned f) ≡ true
        → (g : PlannedFact) × In g st.inserted × (g.order ≡ f.order)
    drop-canceled f h = go (Bool-cases (any (λ v. same_origin v.origin (planned f)) hits))
      where
        named :
            (w : WorkingFact) (o : Origin)
            → In w st.working
            → w.origin ≡ o
            → same_origin o (planned f) ≡ true
            → (g : PlannedFact) × In g st.inserted × (g.order ≡ f.order)
        named w (stored r) m e same = cc
        named w (planned g) m e same = (
          g,
          (Source-planned current st.inserted w g (t.sound w m).0 e).0,
          (==_iff g.order f.order).0 same,
        )

        go :
            (any (λ v. same_origin v.origin (planned f)) hits ≡ true)
              ⊎ (any (λ v. same_origin v.origin (planned f)) hits ≡ false)
            → (g : PlannedFact) × In g st.inserted × (g.order ≡ f.order)
        go (inl picked) =
            let (w, m, same) = any-In (λ v. same_origin v.origin (planned f)) hits picked in
            named w w.origin (unfold hits in (In-keep hit w st.working m).0) refl same
        go (inr other) =
            let e = sym (dropped-drop_entries (planned f)) ∙ h in t.canceled f (rw other at e)

    -- Deleting and noting every entry that a test picks keeps the map in step.
    pub drop_entries-Tracks : Tracks current (drop_entries hit st)
    unfolding drop_entries from_raw from_planned
    drop_entries-Tracks = record {
      noted =
          note_all-AreNoted current unique _ (keep hit st.working)
            (λ w r m.
              Source-stored current st.inserted w r (t.sound w (In-keep hit w st.working m).0).0)
            (record { rows = t.noted.rows; keys = t.noted.keys });
      sound = drop_sound;
      stored_in = λ r m. drop_of (from_raw r) (t.stored_in r m);
      planned_in = λ f m. drop_of (from_planned f) (t.planned_in f (rw inserted-note_all at m));
      orders = rw inserted-note_all t.orders;
      canceled = λ f h. rw inserted-note_all (drop-canceled f h);
    }
