-- ===== src/Seed/Options.antt =====
-- The constants of scripts/seed_data.py that values are chosen from, a weight in hundredths beside
-- each where they are weighted.
use paystream.Base.{ℕ, List, [], ◌∷◌}
use paystream.Base.Numeral.{Text, codes}

abbrev pub user_tiers : List (Text × ℕ)
user_tiers = (codes "standard", 70) ∷ (codes "premium", 20) ∷ (codes "vip", 10) ∷ []

abbrev pub kyc_statuses : List (Text × ℕ)
kyc_statuses = (codes "approved", 85) ∷ (codes "pending", 10) ∷ (codes "rejected", 5) ∷ []

abbrev pub merchant_categories : List Text
merchant_categories =
    codes "electronics"
    ∷ codes "fashion"
    ∷ codes "groceries"
    ∷ codes "restaurants"
    ∷ codes "travel"
    ∷ []

abbrev pub risk_tiers : List (Text × ℕ)
risk_tiers = (codes "low", 60) ∷ (codes "medium", 30) ∷ (codes "high", 10) ∷ []

abbrev pub countries : List Text
countries = codes "SAU" ∷ codes "ARE" ∷ codes "BHR" ∷ codes "KWT" ∷ codes "OMN" ∷ []

abbrev pub tx_statuses : List (Text × ℕ)
tx_statuses = (codes "approved", 85) ∷ (codes "declined", 10) ∷ (codes "pending", 5) ∷ []

abbrev pub repay_statuses : List (Text × ℕ)
repay_statuses = (codes "paid", 92) ∷ (codes "overdue", 6) ∷ (codes "waived", 2) ∷ []

abbrev pub installment_counts : List (ℕ × ℕ)
installment_counts = (4, 80) ∷ (6, 15) ∷ (12, 5) ∷ []

abbrev pub sched_statuses : List (Text × ℕ)
sched_statuses = (codes "active", 50) ∷ (codes "completed", 40) ∷ (codes "defaulted", 10) ∷ []

abbrev pub event_types : List Text
event_types =
    codes "checkout_started"
    ∷ codes "browse"
    ∷ codes "search"
    ∷ codes "rating"
    ∷ codes "app_open"
    ∷ []

abbrev pub device_types : List (Text × ℕ)
device_types = (codes "ios", 45) ∷ (codes "android", 40) ∷ (codes "web", 15) ∷ []

abbrev pub schema_versions : List (Text × ℕ)
schema_versions = (codes "v1", 20) ∷ (codes "v2", 30) ∷ (codes "v3", 50) ∷ []

abbrev pub session_actions : List Text
session_actions =
    codes "login" ∷ codes "view_dashboard" ∷ codes "download_report" ∷ codes "update_settings" ∷ []

abbrev pub referrers : List Text
referrers = codes "google" ∷ codes "direct" ∷ codes "social" ∷ codes "email" ∷ []

abbrev pub dashboard_pages : List Text
dashboard_pages = codes "overview" ∷ codes "reports" ∷ codes "settings" ∷ codes "payments" ∷ []
