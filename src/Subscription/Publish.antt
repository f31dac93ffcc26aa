-- ===== src/Subscription/Publish.antt =====
-- What Publish (winrt/Projection.cpp, EventSubscription) does to the order of the reports.
use mathlib.Core.List.{append-nil, append_assoc, Sublist}
use mathlib.Core.List.Sublist
use matter_winrt.Base.{
  ◌+◌, ◌<◌, ◌≡◌, ap, ◌∙◌, ◌||◌, ◌==◌, none, some, List, [], ◌∷◌, ◌++◌, arith, length, length-append,
  length-drop_one, drop, inl, inr, Option-cases, Bool-cases,
}
use matter_winrt.Subscription.{Subscription, maximum_pending, publishes, step}
use matter_winrt.Subscription.Queue.{Inv, gather, gather_idle}
use matter_winrt.Subscription.Flow.{in_hand, flow}

module _ {ℓ} {R : Type ℓ} where
  pub nil_sublist : (ys : List R) → Sublist [] ys
  nil_sublist [] = Sublist.refl []
  nil_sublist (y ∷ ys) = Sublist.cons y (nil_sublist ys)

  pub prefix : (xs ys : List R) → Sublist xs (xs ++ ys)
  prefix [] ys = nil_sublist ys
  prefix (x ∷ xs) ys = Sublist.cons-cons x (prefix xs ys)

  -- Reports are delivered in the order of their publication; those that are missing are counted.
  pub record Ordered (s : Subscription R) : Type ℓ where
    pub kept : Sublist (flow s) s.published
    pub counted : length (flow s) + s.dropped ≡ length s.published
    pub complete : s.dropped ≡ 0 → flow s ≡ s.published

  drop_one : (ps : List R) (r : R) → Sublist (drop 1 ps ++ r ∷ []) (ps ++ r ∷ [])
  drop_one [] r = Sublist.refl _
  drop_one (p ∷ ps) r = Sublist.cons p (Sublist.refl _)

  -- A list that grows by one report, under a flow that grows no more.
  grown :
      (xs ys ps : List R) (r : R)
      → Sublist ys (xs ++ r ∷ [])
      → Sublist xs ps
      → Sublist ys (ps ++ r ∷ [])
  grown xs ys ps r h k = Sublist.trans h (Sublist.append k (Sublist.refl (r ∷ [])))

  snoc :
      (ds fs bs ps : List R) (r : R)
      → ds ++ (fs ++ (bs ++ (ps ++ r ∷ []))) ≡ (ds ++ (fs ++ (bs ++ ps))) ++ r ∷ []
  snoc ds fs bs ps r = simp append_assoc

  pub length_flow :
      (ds fs bs ps : List R)
      → length (ds ++ (fs ++ (bs ++ ps))) ≡ length ds + length fs + length bs + length ps
  length_flow ds fs bs ps =
      omega (
        arith,
        length-append ds (fs ++ (bs ++ ps)),
        length-append fs (bs ++ ps),
        length-append bs ps,
      )

  push-Ordered :
      (s : Subscription R) (r : R)
      → Ordered s
      → Ordered (record s {
        published = s.published ++ r ∷ [];
        pending_reports = s.pending_reports ++ r ∷ [];
      })
  unfolding flow
  push-Ordered s r o =
      let e = snoc s.delivered (in_hand s.publishing) (gather s.adders) s.pending_reports r in
      record {
        kept = rw e (Sublist.append o.kept (Sublist.refl (r ∷ [])));
        counted = omega (
          arith,
          ap length e,
          length-append (flow s) (r ∷ []),
          length-append s.published (r ∷ []),
          o.counted,
        );
        complete = λ z. e ∙ ap (λ (xs : List R). xs ++ r ∷ []) (o.complete z);
      }

  drop-Ordered :
      (s : Subscription R) (r : R)
      → 0 < length s.pending_reports
      → Ordered s
      → Ordered (record s {
        published = s.published ++ r ∷ [];
        pending_reports = drop 1 s.pending_reports ++ r ∷ [];
        dropped = s.dropped + 1;
      })
  unfolding flow
  drop-Ordered s r h o =
      let ds = s.delivered in
      let fs = in_hand s.publishing in
      let bs = gather s.adders in
      let ps = s.pending_reports in
      record {
        kept =
            grown (flow s) _ s.published r
              (rw (← snoc ds fs bs ps r) (
                Sublist.append (Sublist.refl ds) (
                  Sublist.append (Sublist.refl fs)
                    (Sublist.append (Sublist.refl bs) (drop_one ps r)))))
              o.kept;
        counted = omega (
          arith,
          length_flow ds fs bs (drop 1 ps ++ r ∷ []),
          length_flow ds fs bs ps,
          length-append (drop 1 ps) (r ∷ []),
          length-drop_one ps,
          length-append s.published (r ∷ []),
          o.counted,
        );
        complete = λ z. absurd (omega arith);
      }

  -- A report that is handed over at once has nothing before it but what was delivered.
  direct-Ordered :
      (s : Subscription R) (r : R)
      → s.publishing ≡ none
      → gather s.adders ≡ []
      → s.pending_reports ≡ []
      → Ordered s
      → Ordered (record s { published = s.published ++ r ∷ []; publishing = some r })
  unfolding flow
  direct-Ordered s r f b p o =
      let e : s.delivered ++ (r ∷ (gather s.adders ++ s.pending_reports)) ≡ flow s ++ r ∷ [] =
        rw (f, b, p) (simp append-nil) in
      record {
        kept = rw e (Sublist.append o.kept (Sublist.refl (r ∷ [])));
        counted = omega (
          arith,
          ap length e,
          length-append (flow s) (r ∷ []),
          length-append s.published (r ∷ []),
          o.counted,
        );
        complete = λ z. e ∙ ap (λ (xs : List R). xs ++ r ∷ []) (o.complete z);
      }

  pub publish-Ordered :
      (s : Subscription R) (r : R) → Inv s → Ordered s → Ordered (step s (publishes r))
  unfolding step
  publish-Ordered s r v o = elim (Option-cases s.publishing) [
    | inl e ↦ elim (Bool-cases s.close) [
      | inl c ↦ elim (Bool-cases (s.handler_count == 0 || s.draining_pending)) [
        | inl q ↦ elim (Bool-cases (length s.pending_reports == maximum_pending)) [
          | inl n ↦
              let h : 0 < length s.pending_reports = ground arith in
              ground (arith, drop-Ordered s r h o)
          | inr n ↦ ground (arith, push-Ordered s r o)
        ]
        | inr q ↦
            let b : gather s.adders ≡ [] = ground (arith, gather_idle s.adders) in
            let p : s.pending_reports ≡ [] = ground arith in
            ground (arith, direct-Ordered s r e b p o)
      ]
      | inr c ↦ ground arith
    ]
    | inr (q, e) ↦ ground arith
  ]
