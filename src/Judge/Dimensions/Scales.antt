-- ===== src/Judge/Dimensions/Scales.antt =====
-- The schema asks for each dimension on its own scale.
use agent_belt.Prelude.{
  ◌≡◌, refl, ap, ◌∙◌, String, false, Option, none, some, List, [], ◌∷◌, ◌++◌, map, elem, Dict, get,
  put, get-upsert, Distinct, All, ◌==◌, string_eq, eq_self, if_true, if_false, arith,
}
use agent_belt.Judge.Dimensions.{
  DimensionDef, ScoringStrategy, Schema, verdict_def_name, allowed_score_values, add_dimensions,
  empty_schema, build_schema, dimension_names,
}

module _ (sanitise : String → String) where
  -- The verdicts that a schema allows for a property.
  abbrev pub scale_of : Option (Option String) → Dict String (List String) → Option (List String)
  scale_of (some (some def)) defs = get def defs
  scale_of _ defs = none

  abbrev pub def_names : List DimensionDef → List String
  def_names ds = map (verdict_def_name sanitise) ds

  get-add_dimensions-defs :
      (k : String) (ds : List DimensionDef) (s : Schema)
      → elem k (def_names ds) ≡ false
      → get k (add_dimensions sanitise ds s).defs ≡ get k s.defs
  unfolding add_dimensions
  get-add_dimensions-defs k [] s h = refl
  get-add_dimensions-defs k (d ∷ ds) s h =
      get-add_dimensions-defs k ds _ (ground (arith, h))
      ∙ get-upsert (verdict_def_name sanitise d) k (λ _. allowed_score_values d) s.defs
      ∙ ground (arith, h)

  get-add_dimensions-properties :
      (k : String) (ds : List DimensionDef) (s : Schema)
      → elem k (map (λ d. d.name) ds) ≡ false
      → get k (add_dimensions sanitise ds s).properties ≡ get k s.properties
  unfolding add_dimensions
  get-add_dimensions-properties k [] s h = refl
  get-add_dimensions-properties k (d ∷ ds) s h =
      get-add_dimensions-properties k ds _ (ground (arith, h))
      ∙ get-upsert d.name k (λ _. some (verdict_def_name sanitise d)) s.properties
      ∙ ground (arith, h)

  abbrev names : List DimensionDef → List String
  names ds = map (λ d. d.name) ds

  -- A dimension has its own scale in the schema.
  abbrev pub HasScale : Schema → DimensionDef → Type 0
  HasScale s d = scale_of (get d.name s.properties) s.defs ≡ some (allowed_score_values d)

  HasScale-added :
      (d : DimensionDef) (ds : List DimensionDef) (s : Schema)
      → elem d.name (names ds) ≡ false
      → elem (verdict_def_name sanitise d) (def_names ds) ≡ false
      → HasScale (add_dimensions sanitise (d ∷ ds) s) d
  unfolding add_dimensions
  HasScale-added d ds s h k =
      let s' : Schema = record {
        defs = put (verdict_def_name sanitise d) (allowed_score_values d) s.defs;
        properties = put d.name (some (verdict_def_name sanitise d)) s.properties;
        required = s.required ++ d.name ∷ [];
      } in
      let property =
        get-add_dimensions-properties d.name ds s' h
        ∙ get-upsert d.name d.name (λ _. some (verdict_def_name sanitise d)) s.properties
        ∙ if_true (d.name == d.name) _ _ (eq_self d.name) in
      let scale =
        get-add_dimensions-defs (verdict_def_name sanitise d) ds s' k
        ∙ get-upsert (verdict_def_name sanitise d) (verdict_def_name sanitise d)
            (λ _. allowed_score_values d) s.defs
        ∙ if_true (verdict_def_name sanitise d == verdict_def_name sanitise d) _ _
            (eq_self (verdict_def_name sanitise d)) in
      ap (λ p. scale_of p (add_dimensions sanitise ds s').defs) property ∙ scale

  All-HasScale :
      (ds : List DimensionDef) (s : Schema)
      → Distinct (names ds)
      → Distinct (def_names ds)
      → All (HasScale (add_dimensions sanitise ds s)) ds
  unfolding add_dimensions
  All-HasScale [] s h k = tt
  All-HasScale (d ∷ ds) s h k = (HasScale-added d ds s h.0 k.0, All-HasScale ds _ h.1 k.1)

  HasScale-closed :
      (ds : List DimensionDef) (s : Schema) (required : List String)
      → elem "overall_pass" (names ds) ≡ false
      → All (HasScale s) ds
      → All
          (HasScale (record {
            defs = s.defs;
            properties = put "overall_pass" none s.properties;
            required = required;
          }))
          ds
  HasScale-closed [] s required h k = tt
  HasScale-closed (d ∷ ds) s required h k = (
    ap (λ p. scale_of p s.defs)
          (get-upsert "overall_pass" d.name (λ _. none) s.properties
            ∙ if_false (d.name == "overall_pass") _ _ (
                ground (
                  arith,
                  h,
                  string_eq.beq_iff d.name "overall_pass",
                  string_eq.beq_iff "overall_pass" d.name,
                )))
        ∙ k.0,
    HasScale-closed ds s required (ground (arith, h)) k.1,
  )

  -- In the schema that is sent to the judge each dimension refers to exactly the verdicts of its own
  -- scale, when the names of the dimensions are distinct, remain so when they are made safe, and
  -- none is `overall_pass`.
  pub build_schema-HasScale :
      (strategy : ScoringStrategy)
      → Distinct (dimension_names strategy)
      → Distinct (def_names strategy.dimensions)
      → elem "overall_pass" (dimension_names strategy) ≡ false
      → All (HasScale (build_schema sanitise strategy)) strategy.dimensions
  unfolding build_schema
  build_schema-HasScale strategy h k o =
      let s = add_dimensions sanitise strategy.dimensions (empty_schema sanitise) in
      HasScale-closed strategy.dimensions s (s.required ++ "overall_pass" ∷ []) o
        (All-HasScale strategy.dimensions (empty_schema sanitise) h k)
