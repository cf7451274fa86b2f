-- ===== src/Agent/Tests.antt =====
-- A host with one unit of the plan and one that nothing names.
use nodary.Prelude.{
  Bool, ap, inr, arith, ◌∙◌, eq_iff, String, true, false, ◌≡◌, refl, none, some, List, [], ◌∷◌, inl,
  All, str_eq, if◌then◌else◌, map,
}
use nodary.Agent.{
  ensure_template, judge, stop_others, wanted_by, reconcile, clean_up, with_template,
}
use nodary.Agent.Model.{Host, Plan, Node, ServiceUnit, has, staged_state, built_state, is_staged}
use nodary.Agent.Units.{
  reconcile_unit, reconcile_units, fetched, configured, write_env_file, drive, start_unit, conclude,
  is_active,
}
use nodary.Agent.Scoped.{Scoped}
use nodary.Agent.Apart.{Governed}
use nodary.Agent.Brought.{Obedient, Startable}
use nodary.Agent.Round.{Ready, Distinct, next, reconcile-reconcile}
use nodary.Agent.Converged.{at_rest}

-- The host is the list of its active units.
abbrev less : String → List String → List String
less x [] = []
less x (y ∷ ys) = let rest = less x ys in if str_eq y x then rest else y ∷ rest

abbrev host : Host (List String)
host = record {
  unit_name = λ id. id;
  active_state = λ x s. if has s x then "active" else "inactive";
  start = λ x s. (true, x ∷ s);
  restart = λ x s. (true, x ∷ less x s);
  reset_failed = λ x s. (true, s);
  stop = λ x s. (true, less x s);
  reload = λ s. (true, s);
  list_active = λ s. some s;
  ensure_image = λ image s. (true, s);
  verify_egress = λ x s. none;
  read_fails = λ path. false;
  write_fails = λ path. false;
  template_path = "nodary-model@.service";
  want_template = "[Unit]";
  has_self = false;
}

abbrev chat : ServiceUnit
chat = record {
  deployment = "chat";
  model = "llama";
  image = "vllm";
  env_path = "chat.env";
  rendered = "PORT=1";
}

abbrev served : Plan
served = record {
  units = chat ∷ [];
  stage = record { model = "llama"; state = "staged" } ∷ [];
  prepare = [];
  refused = [];
  out_of_policy = [];
  restart = [];
  maintenance_open = false;
}

-- One deployment more, out of policy.
abbrev narrowed : Plan
narrowed = record served { out_of_policy = "rail" ∷ [] }

abbrev node : List String → Node (List String)
node s = record {
  sys = s;
  template = some "[Unit]";
  files = λ path. some "PORT=1";
  asserted = λ id. "";
}

-- The unit of the plan is started, the one out of policy runs on, and the third is stopped.
one_round : (reconcile host narrowed (node ("old" ∷ "rail" ∷ []))).0.stopped ≡ "old" ∷ []
unfolding reconcile with_template clean_up ensure_template reconcile_units reconcile_unit judge
    stop_others wanted_by is_staged staged_state built_state has fetched configured write_env_file
    drive start_unit conclude is_active
one_round = refl

-- The host does what it is asked to, for every unit.
seen_first : (x : String) (s : List String) → has (x ∷ s) x ≡ true
unfolding has
seen_first x s = ground (arith, eq_iff x x)

seen_other : (x y : String) (s : List String) → str_eq y x ≡ false → has (x ∷ s) y ≡ has s y
unfolding has
seen_other x y s e = ground (arith, e, eq_iff x y, eq_iff y x)

less_other : (x y : String) (s : List String) → str_eq y x ≡ false → has (less x s) y ≡ has s y
unfolding has
less_other x y [] e = refl
less_other x y (z ∷ s) e = ground (arith, e, eq_iff z x, eq_iff y x, eq_iff z y, less_other x y s e)

less_self : (x : String) (s : List String) → has (less x s) x ≡ false
unfolding has
less_self x [] = refl
less_self x (z ∷ s) = ground (arith, less_self x s)

abbrev word : Bool → String
word b = if b then "active" else "inactive"

abbrev all_own : String → Bool
all_own x = true

reads_back : (b : Bool) → b ≡ str_eq (word b) "active"
reads_back true = refl
reads_back false = refl

governed : Governed host all_own
governed = record {
  start_frame = λ x y s e. ap word (seen_other x y s e);
  restart_frame = λ x y s e. ap word (seen_other x y (less x s) e ∙ less_other x y s e);
  reset_frame = λ x y s e. refl;
  stop_frame = λ x y s e. ap word (less_other x y s e);
  reload_frame = λ y s. refl;
  image_frame = λ image y s. refl;
  reloaded = λ s. refl;
  stopped = λ x s. (refl, ap (λ b. str_eq (word b) "active") (less_self x s));
  listed = λ s. (s, refl, λ x. reads_back (has s x));
}

obedient : (u : ServiceUnit) → Obedient host u
obedient u = record {
  image = λ s. refl;
  readable = refl;
  writable = refl;
  started = λ s. (refl, ap word (seen_first u.deployment s));
  restarted = λ s. (refl, ap word (seen_first u.deployment (less u.deployment s)));
  cleared = λ s. refl;
  answered = inl refl;
}

abbrev embed : ServiceUnit
embed = record {
  deployment = "embed";
  model = "bge";
  image = "vllm";
  env_path = "embed.env";
  rendered = "PORT=2";
}

-- Two units, of which one is to be restarted.
abbrev pair : Plan
pair = record {
  units = chat ∷ embed ∷ [];
  stage =
      record { model = "llama"; state = "staged" }
      ∷ record { model = "bge"; state = "staged" }
      ∷ [];
  prepare = record { deployment = "embed"; state = "prepared" } ∷ [];
  refused = [];
  out_of_policy = [];
  restart = "embed" ∷ [];
  maintenance_open = false;
}

ready : All (Ready host pair) pair.units
unfolding is_staged staged_state built_state
ready = ((obedient chat, refl, inl refl), ((obedient embed, refl, inr refl), tt))

distinct : Distinct host pair.units
distinct = ((((refl, refl, refl), (refl, refl, refl)), tt), (tt, tt))

startable :
    All (λ u. Startable host u (has pair.restart u.deployment) ("embed" ∷ "old" ∷ [])) pair.units
unfolding has
startable = (inl refl, (inl refl, tt))

reconcile-reconcile_example :
    reconcile host (next host pair) (reconcile host pair (node ("embed" ∷ "old" ∷ []))).1 ≡ (
      record {
        units = map (at_rest host) pair.units;
        stopped = [];
        refused = [];
        out_of_policy = [];
        errors = [];
        restart_done = [];
      },
      (reconcile host pair (node ("embed" ∷ "old" ∷ []))).1,
    )
reconcile-reconcile_example =
    reconcile-reconcile host governed pair (node ("embed" ∷ "old" ∷ [])) refl refl ready distinct
      startable refl

-- The first of the two rounds starts one unit and restarts the other, and stops the third.
first_round : (reconcile host pair (node ("embed" ∷ "old" ∷ []))).1.sys ≡ "embed" ∷ "chat" ∷ []
unfolding reconcile with_template clean_up ensure_template reconcile_units reconcile_unit judge
    stop_others wanted_by is_staged staged_state built_state has fetched configured write_env_file
    drive start_unit conclude is_active
first_round = refl
