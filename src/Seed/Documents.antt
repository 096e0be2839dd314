-- ===== src/Seed/Documents.antt =====
-- The documents of the two DocumentDB collections and their generators in scripts/seed_data.py.
-- `str(event_data)` is kept as the dictionary that it prints, `isoformat()` as the time; a coordinate
-- is in units of 10 ^ -4.
use paystream.Base.{ℕ, ◌^◌, Bool, ◌||◌, List, ◌++◌, Option, none, some, if◌then◌else◌}
use paystream.Base.Action.{Act, pure, ◌>>=◌}
use paystream.Base.Numeral.{Text, codes, str, text_eq}
use paystream.Seed.Options.{
  event_types, device_types, schema_versions, session_actions, referrers, dashboard_pages,
}
use paystream.Seed.Random.{below, randint, choice, random_ts, wc}
use paystream.Seed.Rows.{repeat}

pub record EventData : Type 0 where
  pub page : Text
  pub referrer : Option Text
  pub geo : Option (ℕ × ℕ)

pub record AppEvent : Type 0 where
  pub event_id : ℕ
  pub user_id : Text
  pub event_type : Text
  pub merchant_id : Option Text
  pub session_id : ℕ
  pub device_type : Text
  pub event_data : EventData
  pub created_at : ℕ

pub record MerchantSession : Type 0 where
  pub session_id : ℕ
  pub merchant_id : Text
  pub action : Text
  pub page : Text
  pub duration_seconds : ℕ
  pub created_at : ℕ

-- The value of an action that is only taken where the test holds.
abbrev pub when : {A : Type 0} → Bool → Act ℕ A → Act ℕ (Option A)
when test m = if test then (do a ← m; pure (some a)) else pure none

module _ (draws : ℕ → ℕ) where
  -- The bits that `uuid.uuid4` leaves open.
  unfoldable pub uuid4 : Act ℕ ℕ
  unfolding below
  uuid4 = below draws (2 ^ 122)

  unfoldable pub random_geo : Act ℕ (ℕ × ℕ)
  unfolding randint
  random_geo = do
    lat ← randint draws 210000 270000
    lon ← randint draws 390000 500000
    pure (lat, lon)

  unfoldable pub gen_app_event : List Text → List Text → Act ℕ AppEvent
  unfolding wc choice randint random_ts uuid4 random_geo str
  gen_app_event user_ids_str merchant_ids_str = do
    sv ← wc draws schema_versions
    evt_type ← choice draws event_types
    mid ← when (text_eq evt_type (codes "checkout_started")) (choice draws merchant_ids_str)
    page ← randint draws 1 100
    referrer ← when (text_eq sv (codes "v2") || text_eq sv (codes "v3")) (choice draws referrers)
    geo ← when (text_eq sv (codes "v3")) (random_geo)
    event_id ← uuid4
    user ← choice draws user_ids_str
    session_id ← uuid4
    device ← wc draws device_types
    ts ← random_ts draws
    pure (record {
      event_id = event_id;
      user_id = user;
      event_type = evt_type;
      merchant_id = mid;
      session_id = session_id;
      device_type = device;
      event_data = record { page = codes "/page/" ++ str page; referrer = referrer; geo = geo };
      created_at = ts;
    })

  unfoldable pub gen_app_events : ℕ → List Text → List Text → Act ℕ (List AppEvent)
  unfolding repeat gen_app_event
  gen_app_events n user_ids_str merchant_ids_str =
      repeat (λ i. gen_app_event user_ids_str merchant_ids_str) 0 n

  unfoldable pub gen_merchant_session : List Text → Act ℕ MerchantSession
  unfolding choice randint random_ts uuid4
  gen_merchant_session merchant_ids_str = do
    session_id ← uuid4
    merchant ← choice draws merchant_ids_str
    action ← choice draws session_actions
    page ← choice draws dashboard_pages
    duration ← randint draws 5 1800
    ts ← random_ts draws
    pure (record {
      session_id = session_id;
      merchant_id = merchant;
      action = action;
      page = codes "/dashboard/" ++ page;
      duration_seconds = duration;
      created_at = ts;
    })

  unfoldable pub gen_merchant_sessions : ℕ → List Text → Act ℕ (List MerchantSession)
  unfolding repeat gen_merchant_session
  gen_merchant_sessions n merchant_ids_str = repeat (λ i. gen_merchant_session merchant_ids_str) 0 n
