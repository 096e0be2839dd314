-- ===== src/Tests/SeedRuns.antt =====
-- The generator of the seed data on a small configuration.
mod Paging
use paystream.Base.{ℕ, ◌+◌, ◌*◌, ◌≡◌, refl, List, [], ◌∷◌, length, arith}
use paystream.Base.Batches.{batches}
use paystream.Base.Task.{Result, ok, raised, index_error, value_error}
use paystream.Base.Action.{pure, ◌>>=◌}
use paystream.Base.Numeral.{str, codes}
use paystream.Base.Rounding.{round_half_even}
use paystream.Seed.Random.{
  below, randint, choice, random_ts, random_dec, wc, random_phone, random_national_id,
}
use paystream.Seed.Rows.{
  repeat, gen_user, gen_users, gen_merchant, gen_merchants, gen_transaction, gen_transactions,
  paid_on, gen_repayment, gen_repayments, gen_installment_schedule, gen_installment_schedules,
}
use paystream.Seed.Tables.{
  add, takes_user, takes_merchant, takes_transaction, takes_repayment, takes_schedule,
}
use paystream.Seed.Documents.{
  uuid4, random_geo, gen_app_event, gen_app_events, gen_merchant_session, gen_merchant_sessions,
}
use paystream.Tests.SeedRuns.Paging.{
  drivers, drivers-AreDocumented, insert_pages, execute_values, insert_many,
}
use paystream.Seed.Batching.{batch_iter}
use paystream.Seed.{Volumes, World, load_all, load_batches, seed_postgresql, seed_documentdb, main}
use paystream.Seed.Seeding.{Relational, Documented, IsSound, HasRoom, main-Seeds}

abbrev draws : ℕ → ℕ
draws n = n * n * 7919 + 104729

abbrev volumes : Volumes
volumes = record {
  users = 3;
  merchants = 1;
  transactions = 2;
  repayments = 2;
  installment_schedules = 1;
  app_events = 2;
  merchant_sessions = 1;
}

-- Tables that have been used before, with rows in the way.
abbrev world : World
world = record {
  drawn = 0;
  users = record {
    rows =
        (
          7,
          record {
            full_name = codes "User 0";
            email = codes "user0@paystream.test";
            phone = [];
            national_id = [];
            credit_limit = 0;
            credit_tier = [];
            kyc_status = [];
            created_at = 0;
            updated_at = 0;
          },
        )
        ∷ [];
    next_id = 8;
  };
  merchants = record { rows = []; next_id = 1 };
  transactions = record { rows = []; next_id = 1 };
  repayments = record { rows = []; next_id = 1 };
  installment_schedules = record { rows = []; next_id = 1 };
  app_events = [];
  merchant_sessions = [];
}

str_run : str 1024 ≡ codes "1024"
unfolding str
str_run = refl

-- 2.5 goes to the even number, 2.6 up.
rounding_run :
    (round_half_even 25 10 ≡ 2) × (round_half_even 26 10 ≡ 3) × (round_half_even 35 10 ≡ 4)
unfolding round_half_even
rounding_run = (refl, refl, refl)

batch_iter_run : batch_iter 7 3 ≡ ok ((0, 3) ∷ (3, 3) ∷ (6, 1) ∷ [])
unfolding batch_iter
batch_iter_run = refl

batch_iter_zero : batch_iter 7 0 ≡ raised value_error
unfolding batch_iter
batch_iter_zero = refl

phone_run : random_phone draws 3 ≡ (ok (codes "+966510176000"), 4)
unfolding random_phone randint below str pure ◌>>=◌
phone_run = refl

volumes-IsSound : IsSound volumes 2
volumes-IsSound = omega arith

world-HasRoom : HasRoom volumes world
world-HasRoom = omega arith

main-Seeds_example :
    (w' : World) × (main drivers draws volumes 2 world ≡ (ok tt, w'))
    × Relational volumes w'
    × Documented volumes w'
main-Seeds_example =
    main-Seeds drivers drivers-AreDocumented draws volumes 2 volumes-IsSound world world-HasRoom

abbrev counts : World → List ℕ
counts w =
    length (w.users.rows)
    ∷ length (w.merchants.rows)
    ∷ length (w.transactions.rows)
    ∷ length (w.repayments.rows)
    ∷ length (w.installment_schedules.rows)
    ∷ length (w.app_events)
    ∷ length (w.merchant_sessions)
    ∷ w.users.next_id
    ∷ []

-- The keys go on from 8.
main_run : counts (main drivers draws volumes 2 world).1 ≡ 3 ∷ 1 ∷ 2 ∷ 2 ∷ 1 ∷ 2 ∷ 1 ∷ 11 ∷ []
unfolding main seed_postgresql seed_documentdb load_all load_batches batch_iter insert_pages add
    execute_values takes_user takes_merchant takes_transaction takes_repayment takes_schedule repeat
    gen_user gen_users gen_merchant gen_merchants gen_transaction gen_transactions paid_on
    gen_repayment gen_repayments gen_installment_schedule gen_installment_schedules uuid4 random_geo
    gen_app_event gen_app_events gen_merchant_session gen_merchant_sessions insert_many
    round_half_even below randint choice random_ts random_dec wc random_phone random_national_id str
    batches pure ◌>>=◌
main_run = refl
