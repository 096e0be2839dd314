-- ===== src/Seed/Events.antt =====
-- What the generated documents are like, and the collections that they go to.
use paystream.Base.{
  ℕ, suc, ◌+◌, ◌^◌, ◌<◌, ◌≡◌, refl, Bool, true, false, ◌||◌, List, [], ◌∷◌, ◌++◌, Option, none,
  some, All, All-any, length, any, arith, length-append,
}
use paystream.Base.Task.{ok}
use paystream.Base.Trace.{All-append}
use paystream.Base.Action.{Act, Gives, Gives-weaken, pure-Gives, >>=-Gives}
use paystream.Base.Numeral.{Text, codes, text_eq, text_eq_refl}
use paystream.Seed.Random.{below, randint, choice, random_ts, wc}
use paystream.Seed.Ranges.{
  Within, below-Gives, randint-Gives, choice-Gives, random_ts-Gives, wc-Gives,
}
use paystream.Seed.Documents.{
  AppEvent, MerchantSession, when, uuid4, random_geo, gen_app_event, gen_merchant_session,
}
use paystream.Seed.Options.{
  event_types, device_types, schema_versions, session_actions, referrers, dashboard_pages,
}
use paystream.Seed.Filling.{Rows}
use paystream.Seed.{load}

abbrev pub has_text : List Text → Text → Bool
has_text ts t = any (λ s. text_eq s t) ts

-- A value where the test holds, and only there; then it is one of `ts`.
abbrev pub Only : Bool → List Text → Option Text → Type 0
Only test ts none = test ≡ false
Only test ts (some t) = (test ≡ true) × (has_text ts t ≡ true)

pub record IsAppEvent (users merchants : List Text) (e : AppEvent) : Type 0 where
  pub user : has_text users (e.user_id) ≡ true
  pub event_type : has_text event_types (e.event_type) ≡ true
  pub merchant : Only (text_eq (e.event_type) (codes "checkout_started")) merchants (e.merchant_id)

pub record IsMerchantSession (merchants : List Text) (s : MerchantSession) : Type 0 where
  pub session_merchant : has_text merchants (s.merchant_id) ≡ true
  pub session_action : has_text session_actions (s.action) ≡ true
  pub duration : Within 5 1800 (s.duration_seconds)

All-has_text : (ts : List Text) → All (λ t. has_text ts t ≡ true) ts
All-has_text ts = All-any text_eq ts text_eq_refl

module _ (draws : ℕ → ℕ) where
  text-Gives :
      (ts : List Text) → 0 < length ts → Gives (λ t. has_text ts t ≡ true) (choice draws ts)
  text-Gives ts h = choice-Gives draws (λ t. has_text ts t ≡ true) ts h (All-has_text ts)

  when-Gives :
      (test : Bool) (ts : List Text)
      → 0 < length ts
      → Gives (Only test ts) (when test (choice draws ts))
  when-Gives true ts h =
      >>=-Gives (choice draws ts) _ (text-Gives ts h)
        (λ t k. pure-Gives (Only true ts) (some t) (refl, k))
  when-Gives false ts h = pure-Gives (Only false ts) none refl

  ends : {A : Type 0} {P : A → Type 0} (m : Act ℕ A) → Gives P m → Gives (λ _. Unit {0}) m
  ends m h = Gives-weaken m h (λ a p. tt)

  when_ends :
      {A : Type 0} (test : Bool) (m : Act ℕ A)
      → Gives (λ _. Unit {0}) m
      → Gives (λ _. Unit {0}) (when test m)
  when_ends true m h = >>=-Gives m _ h (λ a p. pure-Gives (λ _. Unit {0}) (some a) tt)
  when_ends false m h = pure-Gives (λ _. Unit {0}) none tt

  uuid4_ends : Gives (λ _. Unit {0}) (uuid4 draws)
  unfolding uuid4
  uuid4_ends = ends (below draws (2 ^ 122)) (below-Gives draws (2 ^ 122) (omega arith))

  random_geo_ends : Gives (λ _. Unit {0}) (random_geo draws)
  unfolding random_geo
  random_geo_ends =
      >>=-Gives (randint draws 210000 270000) _ (randint-Gives draws 210000 270000 (omega arith))
        (λ lat _.
          >>=-Gives (randint draws 390000 500000) _
            (randint-Gives draws 390000 500000 (omega arith))
            (λ lon _. pure-Gives (λ _. Unit {0}) (lat, lon) tt))

  pub gen_app_event-Gives :
      (users merchants : List Text)
      → 0 < length users
      → 0 < length merchants
      → Gives (IsAppEvent users merchants) (gen_app_event draws users merchants)
  unfolding gen_app_event
  gen_app_event-Gives users merchants hu hm =
      >>=-Gives (wc draws schema_versions) _
        (wc-Gives draws (λ _. Unit {0}) schema_versions (omega arith) (tt, (tt, (tt, tt))))
        (λ sv _.
          >>=-Gives (choice draws event_types) _ (text-Gives event_types (omega arith))
            (λ evt_type t.
              >>=-Gives
                (when (text_eq evt_type (codes "checkout_started")) (choice draws merchants)) _
                (when-Gives (text_eq evt_type (codes "checkout_started")) merchants hm)
                (λ mid m.
                  >>=-Gives (randint draws 1 100) _ (randint-Gives draws 1 100 (omega arith))
                    (λ page _.
                      >>=-Gives
                        (when (text_eq sv (codes "v2") || text_eq sv (codes "v3"))
                          (choice draws referrers))
                        _
                        (when_ends _ (choice draws referrers)
                          (ends _ (text-Gives referrers (omega arith))))
                        (λ referrer _.
                          >>=-Gives (when (text_eq sv (codes "v3")) (random_geo draws)) _
                            (when_ends _ (random_geo draws) random_geo_ends)
                            (λ geo _. >>=-Gives (uuid4 draws) _ uuid4_ends (λ event_id _.
                              >>=-Gives (choice draws users) _ (text-Gives users hu) (λ user u.
                                >>=-Gives (uuid4 draws) _ uuid4_ends (λ session_id _.
                                  >>=-Gives (wc draws device_types) _
                                    (wc-Gives draws (λ _. Unit {0}) device_types (omega arith)
                                      (tt, (tt, (tt, tt))))
                                    (λ device _.
                                      >>=-Gives (random_ts draws) _ (random_ts-Gives draws) (λ ts _.
                                        pure-Gives (IsAppEvent users merchants) _ (record {
                                          user = u;
                                          event_type = t;
                                          merchant = m;
                                        }))))))))))))

  pub gen_merchant_session-Gives :
      (merchants : List Text)
      → 0 < length merchants
      → Gives (IsMerchantSession merchants) (gen_merchant_session draws merchants)
  unfolding gen_merchant_session
  gen_merchant_session-Gives merchants hm = >>=-Gives (uuid4 draws) _ uuid4_ends (λ session_id _.
      >>=-Gives (choice draws merchants) _ (text-Gives merchants hm) (λ merchant m.
        >>=-Gives (choice draws session_actions) _ (text-Gives session_actions (omega arith))
          (λ action a.
            >>=-Gives (choice draws dashboard_pages) _ (text-Gives dashboard_pages (omega arith))
              (λ page _.
                >>=-Gives (randint draws 5 1800) _ (randint-Gives draws 5 1800 (omega arith))
                  (λ duration d. >>=-Gives (random_ts draws) _ (random_ts-Gives draws) (λ ts _.
                    pure-Gives (IsMerchantSession merchants) _
                      (record { session_merchant = m; session_action = a; duration = d })))))))

-- `n` documents that satisfy `P`.
abbrev pub Collected : {D : Type 0} → (D → Type 0) → ℕ → List D → Type 0
Collected P n c = (length c ≡ n) × All P c

Rows-All : {D : Type 0} (P : D → Type 0) (idx : ℕ) (ds : List D) → Rows (λ _. P) idx ds → All P ds
Rows-All P idx [] h = tt
Rows-All P idx (d ∷ ds) (h, hs) = (h, Rows-All P (suc idx) ds hs)

-- A batch that is not empty is added to its collection.
pub load-documents :
    {D : Type 0} (P : D → Type 0) (put : List D → Act (List D) (Unit {0})) (gen : Act ℕ (List D))
    (off cnt drawn : ℕ) (c : List D)
    → ((ds c : List D) → 0 < length ds → put ds c ≡ (ok tt, c ++ ds))
    → Gives (λ ds. Rows (λ _. P) off ds × (length ds ≡ cnt)) gen
    → Collected P off c
    → 0 < cnt
    → (drawn' : ℕ) × (c' : List D) × (load gen put (drawn, c) ≡ (ok tt, (drawn', c')))
      × Collected P (off + cnt) c'
load-documents P put gen off cnt drawn c puts g (same, h) p =
    let (ds, drawn', e, (k, count)) = g.gives drawn in
    (
      drawn',
      c ++ ds,
      rw (e, puts ds c (omega arith)),
      (omega (arith, length-append c ds), All-append P c ds h (Rows-All P off ds k)),
    )
