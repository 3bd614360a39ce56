-- ===== src/Realtime/Subscriptions/Tracking.antt =====
-- What the methods keep of each connection, and of a subscriber that was taken from it.
use ota_api.Realtime.Subscriptions.{
  Application, ApplicationSubscriber, ApplicationSubscription, ConnectionState,
  increment_application_revisions, new_connection, renumber, to_subscriber,
}
use ota_api.Realtime.Subscriptions.Operations.{Every, Every-delete, Every-set, IsKept}
use ota_api.Prelude.{
  Bool-cases, List, Text, [], ap, arith, get, get-delete, get-set, inl, inr, length, nat_eq,
  option_text_eq, refl, some, sym, text_eq, ℕ, ◌+◌, ◌<◌, ◌==◌, ◌∙◌, ◌∷◌, ◌≡◌, ◌≤◌,
}

renumber-get :
    (n : ℕ) (m : List (Text × ApplicationSubscription)) (k : Text) (b : ApplicationSubscription)
    → get k (renumber n m) ≡ some b
    → (n ≤ b.revision)
      × (b.revision < n + length m)
      × (a : ApplicationSubscription) × (get k m ≡ some a)
      × (b.input ≡ a.input)
unfolding renumber get
renumber-get n [] k b e = absurd (cc e)
renumber-get n ((j, a) ∷ m) k b e = elim (Bool-cases (j == k)) [
  | inl same ↦
      let p : record a { revision = n } ≡ b = ground (arith, same, e) in
      (
        rw (sym p) (omega arith),
        rw (sym p) (omega arith),
        a,
        rw same refl,
        ap (λ (x : ApplicationSubscription). x.input) (sym p),
      )
  | inr other ↦
      let (l, u, a, g, q) = renumber-get (n + 1) m k b (ground (arith, other, e)) in
      (omega (arith, l), omega (arith, u), a, rw other g, q)
]

-- A state fits its key, and its revisions are those it has given.
pub record IsSound (n : ℕ) (id : Text) (st : ConnectionState) : Type 0 where
  pub own : st.socket_id ≡ id
  pub earlier : st.generation < n
  pub given :
      Every
        (λ k a. (a.input.app_name ≡ k) × (a.revision < st.next_subscription_revision))
        st.applications

pub kept-IsSound : IsKept 0 IsSound
unfolding new_connection increment_application_revisions get
kept-IsSound = record {
  grows = λ n id st h. record { own = h.own; earlier = omega (arith, h.earlier); given = h.given };
  starts = λ n id l. record { own = refl; earlier = omega arith; given = λ k a e. absurd (cc e) };
  subscribes = λ n id st input h. record {
    own = h.own;
    earlier = h.earlier;
    given =
        Every-set _ input.app_name _ st.applications (refl, omega arith)
          λ k a e. let (p, q) = h.given k a e in (p, omega (arith, q));
  };
  unsubscribes = λ n id st app_name h. record {
    own = h.own;
    earlier = h.earlier;
    given = Every-delete _ app_name st.applications h.given;
  };
  increments = λ n id st users h. record {
    own = h.own;
    earlier = h.earlier;
    given = λ k b e.
        let (l, u, a, g, q) = renumber-get st.next_subscription_revision st.applications k b e in
        (ap (λ (i : Application). i.app_name) q ∙ (h.given k a g).0, u);
  };
  marks = λ n id st uniques h. record { own = h.own; earlier = h.earlier; given = h.given };
}

module _ (x : ApplicationSubscriber) where
  -- On the subscriber's own connection: its revision has been given, and a subscription with that
  -- revision is the one it was taken from.
  abbrev pub Fits : ℕ → Text → ConnectionState → Type 0
  Fits n id st =
      st.generation ≡ x.generation
      → id ≡ x.socket_id
      → (x.application.revision < st.next_subscription_revision)
        × ((a : ApplicationSubscription)
            → get x.application.input.app_name st.applications ≡ some a
            → a.revision ≡ x.application.revision
            → to_subscriber st a ≡ x)

  pub kept-Fits : IsKept (x.generation + 1) Fits
  unfolding new_connection increment_application_revisions get to_subscriber
  kept-Fits = record {
    grows = λ n id st h. h;
    starts = λ n id l g. absurd (omega (arith, l, g));
    subscribes = λ n id st input h g i.
        let (l, f) = h g i in
        let subscription : ApplicationSubscription = record {
          input = input;
          revision = st.next_subscription_revision;
        } in
        (
          omega (arith, l),
          λ a e r. elim (Bool-cases (input.app_name == x.application.input.app_name)) [
            | inl same ↦
                let p : subscription ≡ a = ground (
                  arith,
                  get-set input.app_name x.application.input.app_name subscription st.applications,
                  same,
                  e,
                ) in
                absurd (omega (arith, l, r, ap (λ (b : ApplicationSubscription). b.revision) p))
            | inr other ↦
                f a
                  (ground (
                    arith,
                    get-set input.app_name x.application.input.app_name subscription
                        st.applications,
                    other,
                    e,
                  ))
                  r
          ],
        );
    unsubscribes = λ n id st app_name h g i.
        let (l, f) = h g i in
        (
          l,
          λ a e r.
              f a
                (ground
                  (arith, get-delete app_name x.application.input.app_name st.applications, e))
                r,
        );
    increments = λ n id st users h g i.
        let (l, f) = h g i in
        (
          omega (arith, l),
          λ b e r. absurd (
              omega (
                arith,
                l,
                r,
                (renumber-get st.next_subscription_revision st.applications
                    x.application.input.app_name b e).0,
              )),
        );
    marks = λ n id st uniques h. h;
  }
