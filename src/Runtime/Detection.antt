-- ===== src/Runtime/Detection.antt =====
-- What `newRuntimeInfo` of clients/go/pkg/audit/runtime.go detects.
use mathlib.Core.Path.{subst}
use lumberjack.Prelude.{
  String, ◌≡◌, refl, sym, ◌⊎◌, inl, inr, List, [], ◌∷◌, ◌&&◌, ◌||◌, not, all, is_some, Bool, true,
  false, Option, none, some, lookup, Bool-cases, ◌==◌, eq_iff, arith, some_inj, if◌then◌else◌,
}
use lumberjack.Errors.{Result, ok, err}
use lumberjack.Runtime.{
  MonitoredResource, Environment, getenv, detect, detect_app_engine_resource, detect_cloud_function,
  detect_cloud_run_resource, detect_kubernetes_resource, detect_gce_resource, or_nil, is_app_engine,
  is_cloud_function, is_cloud_run, is_kubernetes_engine,
}
use lumberjack.Runtime.Zone.{region_from_zone, IsRegionOf, region_from_zone-IsRegionOf}

-- A runtime of Google Cloud: the type of its resources, whether the surroundings show it, the label
-- that says where a resource runs, and which places it may hold for a zone.
pub record Platform : Type 1 where
  pub resource_type : String
  pub shown : Bool
  pub label : String
  pub place : String → String → Type 0

abbrev has_all : Environment → List String → Bool
has_all e ks = all (λ k. is_some (e.lookup_env k)) ks

abbrev is_given : Result String → Bool
is_given (ok s) = not (s == "")
is_given (err x) = false

-- What shows each runtime: variables, or answers of the metadata server.
abbrev pub app_engine : Environment → Platform
app_engine e = record {
  resource_type = "gae_app";
  shown = has_all e ("GAE_SERVICE" ∷ "GAE_VERSION" ∷ "GAE_INSTANCE" ∷ []);
  label = "zone";
  place = λ zone place. place ≡ zone;
}

abbrev pub cloud_function : Environment → Platform
cloud_function e = record {
  resource_type = "cloud_function";
  shown =
      has_all e ("FUNCTION_NAME" ∷ "FUNCTION_REGION" ∷ "ENTRY_POINT" ∷ [])
      || has_all e ("FUNCTION_TARGET" ∷ "FUNCTION_SIGNATURE_TYPE" ∷ "K_SERVICE" ∷ []);
  label = "region";
  place = IsRegionOf;
}

abbrev pub cloud_run : Environment → Platform
cloud_run e = record {
  resource_type = "cloud_run_revision";
  shown = has_all e ("K_CONFIGURATION" ∷ "K_SERVICE" ∷ "K_REVISION" ∷ []);
  label = "location";
  place = IsRegionOf;
}

abbrev pub kubernetes : Environment → Platform
kubernetes e = record {
  resource_type = "k8s_container";
  shown = is_given (e.instance_attribute "cluster-name");
  label = "location";
  place = λ zone place. place ≡ zone;
}

abbrev pub gce : Environment → Platform
gce e = record {
  resource_type = "gce_instance";
  shown = e.on_gce;
  label = "zone";
  place = λ zone place. place ≡ zone;
}

-- The order in which they are asked for.
abbrev pub platforms : Environment → List Platform
platforms e = app_engine e ∷ cloud_function e ∷ cloud_run e ∷ kubernetes e ∷ gce e ∷ []

abbrev pub first_shown : List Platform → Option Platform
first_shown [] = none
first_shown (t ∷ ts) = let later = first_shown ts in if t.shown then some t else later

-- The metadata server knows the project and the zone, and the resource of the runtime names both: the
-- project, or on App Engine a variable in place of an empty one, and the zone, or its region on Cloud
-- Functions and Cloud Run.
pub record IsLocated (e : Environment) (t : Platform) (r : MonitoredResource) : Type 0 where
  pub of_type : r.resource_type ≡ t.resource_type
  pub project : String
  pub zone : String
  pub project_known : e.project_id ≡ ok project
  pub zone_known : e.zone ≡ ok zone
  pub project_named :
      (lookup "project_id" r.resource_labels ≡ some project)
      ⊎ ((project ≡ "")
          × (r.resource_type ≡ "gae_app")
          × (lookup "project_id" r.resource_labels ≡ some (getenv e "GOOGLE_CLOUD_PROJECT")))
  pub place_named :
      (place : String) × t.place zone place × (lookup t.label r.resource_labels ≡ some place)

or_nil-some :
    {A B : Type 0} (m : Result A) (f : A → Option B) {b : B}
    → or_nil m f ≡ some b
    → (a : A) × (m ≡ ok a) × (f a ≡ some b)
or_nil-some (ok a) f h = (a, refl, h)
or_nil-some (err x) f h = cc

project_or :
    (p v t : String)
    → (some (if p == "" then v else p) ≡ some p)
      ⊎ ((p ≡ "") × (t ≡ t) × (some (if p == "" then v else p) ≡ some v))
project_or p v t = elim (Bool-cases (p == "")) [
  | inl b ↦ inr (ground (arith, eq_iff p ""), refl, rw b)
  | inr b ↦ inl (rw b)
]

app_engine-IsLocated :
    (e : Environment) (r : MonitoredResource)
    → detect_app_engine_resource e ≡ some r
    → IsLocated e (app_engine e) r
unfolding detect_app_engine_resource lookup
app_engine-IsLocated e r h =
    let (project, p, h1) = or_nil-some e.project_id _ h in
    let (zone, q, h2) = or_nil-some e.zone _ h1 in
    subst (IsLocated e _) (some_inj h2) (record {
      of_type = refl;
      project = project;
      zone = zone;
      project_known = p;
      zone_known = q;
      project_named = project_or project (getenv e "GOOGLE_CLOUD_PROJECT") "gae_app";
      place_named = (zone, refl, refl);
    })

cloud_function-IsLocated :
    (e : Environment) (r : MonitoredResource)
    → detect_cloud_function e ≡ some r
    → IsLocated e (cloud_function e) r
unfolding detect_cloud_function lookup
cloud_function-IsLocated e r h =
    let (project, p, h1) = or_nil-some e.project_id _ h in
    let (zone, q, h2) = or_nil-some e.zone _ h1 in
    subst (IsLocated e _) (some_inj h2) (record {
      of_type = refl;
      project = project;
      zone = zone;
      project_known = p;
      zone_known = q;
      project_named = inl refl;
      place_named = (region_from_zone zone, region_from_zone-IsRegionOf zone, refl);
    })

cloud_run-IsLocated :
    (e : Environment) (r : MonitoredResource)
    → detect_cloud_run_resource e ≡ some r
    → IsLocated e (cloud_run e) r
unfolding detect_cloud_run_resource lookup
cloud_run-IsLocated e r h =
    let (project, p, h1) = or_nil-some e.project_id _ h in
    let (zone, q, h2) = or_nil-some e.zone _ h1 in
    subst (IsLocated e _) (some_inj h2) (record {
      of_type = refl;
      project = project;
      zone = zone;
      project_known = p;
      zone_known = q;
      project_named = inl refl;
      place_named = (region_from_zone zone, region_from_zone-IsRegionOf zone, refl);
    })

kubernetes-IsLocated :
    (e : Environment) (r : MonitoredResource)
    → detect_kubernetes_resource e ≡ some r
    → IsLocated e (kubernetes e) r
unfolding detect_kubernetes_resource lookup
kubernetes-IsLocated e r h =
    let (project, p, h1) = or_nil-some e.project_id _ h in
    let (zone, q, h2) = or_nil-some e.zone _ h1 in
    let (name, _, h3) = or_nil-some (e.instance_attribute "cluster-name") _ h2 in
    subst (IsLocated e _) (some_inj h3) (record {
      of_type = refl;
      project = project;
      zone = zone;
      project_known = p;
      zone_known = q;
      project_named = inl refl;
      place_named = (zone, refl, refl);
    })

gce-IsLocated :
    (e : Environment) (r : MonitoredResource)
    → detect_gce_resource e ≡ some r
    → IsLocated e (gce e) r
unfolding detect_gce_resource lookup
gce-IsLocated e r h =
    let (project, p, h1) = or_nil-some e.project_id _ h in
    let (id, _, h2) = or_nil-some e.instance_id _ h1 in
    let (zone, q, h3) = or_nil-some e.zone _ h2 in
    let (name, _, h4) = or_nil-some e.instance_name _ h3 in
    subst (IsLocated e _) (some_inj h4) (record {
      of_type = refl;
      project = project;
      zone = zone;
      project_known = p;
      zone_known = q;
      project_named = inl refl;
      place_named = (zone, refl, refl);
    })

-- One turn of the search: a runtime that is shown, or the rest.
detected-or :
    (e : Environment) (t : Platform) (ts : List Platform) (b : Bool)
    (x y : Option MonitoredResource) (r : MonitoredResource)
    → b ≡ t.shown
    → (x ≡ some r → IsLocated e t r)
    → (y ≡ some r → (u : Platform) × (first_shown ts ≡ some u) × IsLocated e u r)
    → (if b then x else y) ≡ some r
    → (u : Platform) × (first_shown (t ∷ ts) ≡ some u) × IsLocated e u r
detected-or e t ts true x y r shown f g h = (t, rw (sym shown) refl, f h)
detected-or e t ts false x y r hidden f g h =
    let (u, found, located) = g h in (u, rw (sym hidden) found, located)

all_three : (a b c : Bool) → (a && b && c) ≡ (a && (b && (c && true)))
all_three true true true = refl
all_three true true false = refl
all_three true false c = refl
all_three false b c = refl

module _ (e : Environment) where
  app_engine-shown : is_app_engine e ≡ (app_engine e).shown
  unfolding is_app_engine
  app_engine-shown =
      all_three (is_some (e.lookup_env "GAE_SERVICE")) (is_some (e.lookup_env "GAE_VERSION"))
        (is_some (e.lookup_env "GAE_INSTANCE"))

  cloud_function-shown : is_cloud_function e ≡ (cloud_function e).shown
  unfolding is_cloud_function
  cloud_function-shown =
      rw
        (
          all_three (is_some (e.lookup_env "FUNCTION_NAME"))
              (is_some (e.lookup_env "FUNCTION_REGION")) (is_some (e.lookup_env "ENTRY_POINT")),
          all_three (is_some (e.lookup_env "FUNCTION_TARGET"))
              (is_some (e.lookup_env "FUNCTION_SIGNATURE_TYPE"))
              (is_some (e.lookup_env "K_SERVICE")),
        )
        refl

  cloud_run-shown : is_cloud_run e ≡ (cloud_run e).shown
  unfolding is_cloud_run
  cloud_run-shown =
      all_three (is_some (e.lookup_env "K_CONFIGURATION")) (is_some (e.lookup_env "K_SERVICE"))
        (is_some (e.lookup_env "K_REVISION"))

  kubernetes-shown : is_kubernetes_engine e ≡ (kubernetes e).shown
  unfolding is_kubernetes_engine
  kubernetes-shown = elim (e.instance_attribute "cluster-name") [ ok s ↦ refl | err x ↦ refl ]

  -- The resource that is detected is of the first runtime, in the order App Engine, Cloud Functions,
  -- Cloud Run, Kubernetes and Compute Engine, that the environment's variables or the metadata server
  -- show. The metadata server named a project and a zone, and the resource's labels hold that project,
  -- or on App Engine a variable in place of an empty one, and that zone, or on Cloud Functions and
  -- Cloud Run its region, which is what stands before the last dash, if that is not empty.
  pub detect-IsLocated :
      (r : MonitoredResource)
      → detect e ≡ some r
      → (t : Platform) × (first_shown (platforms e) ≡ some t) × IsLocated e t r
  unfolding detect
  detect-IsLocated r =
      let last : List Platform = gce e ∷ [] in
      let later : List Platform = kubernetes e ∷ last in
      let rest : List Platform = cloud_run e ∷ later in
      detected-or e (app_engine e) (cloud_function e ∷ rest) (is_app_engine e) _ _ r
        app_engine-shown (app_engine-IsLocated e r)
        (detected-or e (cloud_function e) rest (is_cloud_function e) _ _ r cloud_function-shown
          (cloud_function-IsLocated e r)
          (detected-or e (cloud_run e) later (is_cloud_run e) _ _ r cloud_run-shown
            (cloud_run-IsLocated e r)
            (detected-or e (kubernetes e) last (is_kubernetes_engine e) _ _ r kubernetes-shown
              (kubernetes-IsLocated e r)
              (detected-or e (gce e) [] e.on_gce _ _ r refl (gce-IsLocated e r) (λ h. cc)))))
