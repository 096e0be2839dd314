-- ===== src/Api/Serving.antt =====
-- What a served response holds, and when a request is served.
use paystream.Base.{
  subst, ℕ, ◌≡◌, refl, inl, inr, Bool, true, false, String, List, [], ◌∷◌, map, none, All, arith,
  Bool-cases, eq_iff,
}
use paystream.Base.Number.{Value}
use paystream.Base.Task.{Result, ok, raised}
use paystream.Clickhouse.{Reply}
use paystream.Breaker.{Breaker, can_execute}
use paystream.Pool.{Pool, returns}
use paystream.Features.{Row, lookup, fields, is_valid}
use paystream.Pool.Conservation.{IsValid}
use paystream.Api.Accounting.{query_empty, query_front}
use paystream.Features.Ranges.{Holds, is_valid-Holds}
use paystream.Api.{
  App, Clocks, Request, FeatureResponse, served, Handled, answers, Env, is_meta, meta_keys,
  row_to_features, get_features, query_pool, settle, respond, serve, decide, fetch,
}

abbrev pub names : Reply → List String
names reply = map (λ (name, _). name) reply.col_types

-- A metadata column is never among the features, whatever the row.
lookup-row_to_features :
    (key : String) (row : List Value) (columns : List String)
    → is_meta key ≡ true
    → lookup key (row_to_features row columns) ≡ none
unfolding row_to_features lookup
lookup-row_to_features key (value ∷ row) (col ∷ columns) h =
    ground (arith, lookup-row_to_features key row columns h, eq_iff col key)
lookup-row_to_features key [] columns h = refl
lookup-row_to_features key (value ∷ row) [] h = refl

pub meta_keys-none :
    (row : List Value) (columns : List String)
    → All (λ key. lookup key (row_to_features row columns) ≡ none) meta_keys
unfolding is_meta
meta_keys-none row columns = (
  lookup-row_to_features "user_id" row columns refl,
  (
    lookup-row_to_features "feature_version" row columns refl,
    (
      lookup-row_to_features "valid_from" row columns refl,
      (lookup-row_to_features "valid_to" row columns refl, tt),
    ),
  ),
)

module _ (env : Env) (req : Request) where
  -- The response repeats the request, and its features are those of the first row that a query on
  -- `conn` returned.
  pub record IsFaithful (conn : ℕ) (resp : FeatureResponse) : Type 0 where
    pub reply : Reply
    pub row : List Value
    pub others : List (List Value)
    pub answered : fetch env req conn ≡ ok reply
    pub first_row : reply.rows ≡ row ∷ others
    pub features_of_row : resp.features ≡ row_to_features row (names reply)
    pub user : resp.user_id ≡ req.user_id
    pub time : resp.as_of ≡ req.as_of
    pub version : resp.feature_version ≡ env.feature_version
    pub valid : is_valid env.pydantic env.float_of resp.features ≡ true

  abbrev ServesFaithfully : List ℕ → Handled → Type 0
  ServesFaithfully idle (answers app' (served resp)) =
      (conn : ℕ) × (rest : List ℕ) × (idle ≡ conn ∷ rest) × IsFaithful conn resp
  ServesFaithfully idle _ = Unit {0}

  module _ (clocks : Clocks) where
    serve-Faithfully :
        (app : App) (conn : ℕ) (rest : List ℕ) (row : List Value) (others : List (List Value))
        (cols : List (String × String))
        → fetch env req conn ≡ ok (record { rows = row ∷ others; col_types = cols })
        → ServesFaithfully
            (conn ∷ rest)
            (serve env app req clocks (row_to_features row (map (λ (name, _). name) cols)))
    unfolding serve
    serve-Faithfully app conn rest row others cols e =
        let features : Row = row_to_features row (map (λ (name, _). name) cols) in
        elim (Bool-cases (is_valid env.pydantic env.float_of features)) [
          | inl good ↦ rw good (
            conn,
            rest,
            refl,
            record {
              reply = record { rows = row ∷ others; col_types = cols };
              row = row;
              others = others;
              answered = e;
              first_row = refl;
              features_of_row = refl;
              user = refl;
              time = refl;
              version = refl;
              valid = good;
            },
          )
          | inr bad ↦ rw bad tt
        ]

    respond_Faithfully :
        (app : App) (conn : ℕ) (rest : List ℕ) (cells : List (List Value))
        (cols : List (String × String))
        → fetch env req conn ≡ ok (record { rows = cells; col_types = cols })
        → ServesFaithfully
            (conn ∷ rest)
            (respond env app req clocks (record { rows = cells; col_types = cols }))
    unfolding respond
    respond_Faithfully app conn rest [] cols e = tt
    respond_Faithfully app conn rest (row ∷ others) cols e =
        serve-Faithfully _ conn rest row others cols e

    settle_Faithfully :
        (app : App) (q : Pool) (conn : ℕ) (rest : List ℕ) (r : Result Reply)
        → fetch env req conn ≡ r
        → ServesFaithfully (conn ∷ rest) (settle env app req clocks (returns r q))
    unfolding settle
    settle_Faithfully app q conn rest (ok reply) e =
        respond_Faithfully (record app { pool = q }) conn rest reply.rows reply.col_types e
    settle_Faithfully app q conn rest (raised x) e = tt

    query_Faithfully :
        (app : App) (idle : List ℕ)
        → IsValid app.pool
        → app.pool.idle ≡ idle
        → ServesFaithfully idle (settle env app req clocks (query_pool env app.pool req))
    query_Faithfully app [] v e = rw (query_empty env req clocks app.pool e) (unfold settle in tt)
    query_Faithfully app (conn ∷ rest) v e =
        rw (query_front env req clocks app.pool conn rest v e)
          (settle_Faithfully app _ conn rest (fetch env req conn) refl)

    decide_Faithfully :
        (app : App) (cb : Breaker) (allowed : Bool)
        → IsValid app.pool
        → ServesFaithfully app.pool.idle (decide env app req clocks (cb, allowed))
    unfolding decide
    decide_Faithfully app cb false v = tt
    decide_Faithfully app cb true v =
        query_Faithfully (record app { breaker = cb }) app.pool.idle v refl

    module _ (app app' : App) (resp : FeatureResponse) (v : IsValid app.pool) where
      -- A served response answers its own request with the first row that the oldest connection of
      -- the pool returned, and that row passed the validation.
      pub served-IsFaithful :
          get_features env app req clocks ≡ answers app' (served resp)
          → (conn : ℕ) × (rest : List ℕ) × (app.pool.idle ≡ conn ∷ rest) × IsFaithful conn resp
      unfolding get_features
      served-IsFaithful h =
          let (cb, allowed) = can_execute app.breaker clocks.asked_at in
          subst (ServesFaithfully app.pool.idle) h (decide_Faithfully app cb allowed v)

      -- What is served has every feature, none of them NULL, each finite one in its declared range,
      -- and no metadata column.
      pub served-Holds :
          get_features env app req clocks ≡ answers app' (served resp)
          → All (Holds env.pydantic env.float_of resp.features) fields
            × All (λ key. lookup key resp.features ≡ none) meta_keys
      served-Holds h =
          let (conn, rest, e, faithful) = served-IsFaithful h in
          (
            is_valid-Holds env.pydantic env.float_of resp.features faithful.valid,
            rw faithful.features_of_row (meta_keys-none faithful.row (names faithful.reply)),
          )
