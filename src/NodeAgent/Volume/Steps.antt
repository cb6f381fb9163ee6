-- ===== src/NodeAgent/Volume/Steps.antt =====
-- dynamic-config-node-agent/src/publish.rs: how the agent reads a volume's command line, flag by flag.
use dynamic_config_k8s.Prelude.{
  >>=-eq-ok, ok_or, ok_or-some, sym, ◌∙◌, ap, Bool-cases, ◌++◌, if◌then◌else◌, String, ◌≡◌, refl,
  sym, ap, ◌∙◌, inl, inr, Bool, true, false, Option, none, some, List, [], ◌∷◌, ◌++◌, if◌then◌else◌,
  Bool-cases, Option-cases, All, Result, ok, err, ◌>>=◌, ok_or, >>=-eq-ok,
}
use dynamic_config_k8s.Prelude.Yields.{Yields, Yields-ok, Yields-err, Yields-bind}
use dynamic_config_k8s.Agent.Arguments.Served.{validated-IsChecked}
use dynamic_config_k8s.Agent.Arguments.{from_args, parse_renderings, read_flags, apply_settings}
use dynamic_config_k8s.Agent.Arguments.Fields.{
  Spec, Environment, initial, required, Draft, Settings, Refused, unknown_flag,
}
use dynamic_config_k8s.Agent.Arguments.Flags.{Flag, switch, draft, plain, checked, flag_in, flags}
use dynamic_config_k8s.NodeAgent.Volume.{
  asks_watch, watched, Pairs, line, Attributes, passed, given,
}

-- a flag that takes a value, and leads from what is said of the draft to what is said behind it
abbrev pub Steps : (Draft → Type 0) → (Draft → Type 0) → Option Flag → String → Type 0
Steps P Q (some (draft f)) v = (d : Draft) → P d → Q (f v d)
Steps P Q (some (plain f)) v = (d : Draft) → P d → Q (apply_settings (f v) d)
Steps P Q (some (checked f)) v =
    (d : Draft) → P d → Yields (λ s. Q (record d { settings = s })) (f v d.settings)
Steps P Q (some (switch f)) v = ◌≡◌ {A = Bool} true false
Steps P Q none v = ◌≡◌ {A = Bool} true false

-- a flag that keeps what is said of the draft
abbrev pub Takes : (Draft → Type 0) → Option Flag → String → Type 0
Takes P = Steps P P

abbrev read_one : Option Flag → String → String → List String → Draft → Result Refused Draft
read_one found name value more d = elim found [
  | none ↦ err (unknown_flag name)
  | some (switch f) ↦ read_flags (value ∷ more) (apply_settings f d)
  | some (draft f) ↦ read_flags more (f value d)
  | some (plain f) ↦ read_flags more (apply_settings (f value) d)
  | some (checked f) ↦ do s ← f value d.settings; read_flags more (record d { settings = s })
]

module _ (P Q : Draft → Type 0) where
  read_one-keeps :
      (R : Draft → Type 0) (found : Option Flag) (name value : String) (more : List String)
      (d : Draft)
      → Steps P Q found value
      → P d
      → ((d : Draft) → Q d → Yields R (read_flags more d))
      → Yields R (read_one found name value more d)
  read_one-keeps R (some (draft f)) name value more d takes p later = later (f value d) (takes d p)
  read_one-keeps R (some (plain f)) name value more d takes p later =
      later (apply_settings (f value) d) (takes d p)
  read_one-keeps R (some (checked f)) name value more d takes p later =
      Yields-bind (f value d.settings) _
        (λ s e. later (record d { settings = s }) ((takes d p).at s e))
  read_one-keeps R (some (switch f)) name value more d takes p later = cc
  read_one-keeps R none name value more d takes p later = cc

  -- one flag in front of a line
  pub read_flags-step :
      (R : Draft → Type 0) (name value : String) (more : List String) (d : Draft)
      → Steps P Q (flag_in name flags) value
      → P d
      → ((d : Draft) → Q d → Yields R (read_flags more d))
      → Yields R (read_flags (name ∷ value ∷ more) d)
  unfolding read_flags
  read_flags-step R name value more d steps p later =
      read_one-keeps R (flag_in name flags) name value more d steps p later

module _ (P : Draft → Type 0) where
  -- what every flag of a line keeps holds at its end
  pub read_flags-line :
      (pairs : Pairs) (d : Draft)
      → All (λ p. Takes P (flag_in p.0 flags) p.1) pairs
      → P d
      → Yields P (read_flags (line pairs) d)
  unfolding read_flags line
  read_flags-line [] d takes p = Yields-ok d p
  read_flags-line (pair ∷ more) d takes p =
      read_flags-step P P P pair.0 pair.1 (line more) d takes.0 p
        (λ d' q. read_flags-line more d' takes.1 q)

  -- the flags of the options, whatever their values
  pub passed-Takes :
      (attributes : Attributes) (table : Pairs)
      → All (λ o. (v : String) → Takes P (flag_in o.1 flags) v) table
      → All (λ p. Takes P (flag_in p.0 flags) p.1) (passed attributes table)
  unfolding passed given
  passed-Takes attributes [] takes = tt
  passed-Takes attributes (option ∷ more) takes = elim (Option-cases (given attributes option.0)) [
    | inl e ↦ rw (passed, e) (passed-Takes attributes more takes.1)
    | inr (value, e) ↦ rw (passed, e) (takes.0 value, passed-Takes attributes more takes.1)
  ]

pub any_settings :
    {P : Settings → Type 0} (r : Result Refused Settings) → ((s : Settings) → P s) → Yields P r
any_settings (ok s) h = Yields-ok s (h s)
any_settings (err e) h = Yields-err e

line-append : (a b : Pairs) → line (a ++ b) ≡ line a ++ line b
unfolding line
line-append [] b = refl
line-append (pair ∷ a) b = ap (λ l. pair.0 ∷ pair.1 ∷ l) (line-append a b)

-- with the watch that is always there, the line still consists of flags that take a value
abbrev pub completed : Pairs → Pairs
completed pairs = if asks_watch (line pairs) then pairs else pairs ++ ("--watch", "15") ∷ []

pub watched-line : (pairs : Pairs) → watched (line pairs) ≡ line (completed pairs)
unfolding watched line
watched-line pairs = elim (Bool-cases (asks_watch (line pairs))) [
  | inl e ↦ rw (watched, e) refl
  | inr e ↦ rw (watched, e) (sym (line-append pairs (("--watch", "15") ∷ [])))
]

-- what an accepted line says is what its specification holds
pub from_args-Draft :
    (env : Environment) (arguments : List String) (spec : Spec)
    → from_args env arguments ≡ ok spec
    → (d : Draft) × (read_flags arguments (initial env) ≡ ok d)
      × (spec.settings ≡ d.settings)
      × (d.out ≡ some spec.out)
      × (parse_renderings d.settings.file_mode d.also ≡ ok spec.also)
unfolding from_args
from_args-Draft env arguments spec e =
    let (d, read, e1) = >>=-eq-ok (read_flags arguments (initial env)) _ e in
    let (source, _, e2) = >>=-eq-ok (ok_or d.source (required "--source")) _ e1 in
    let (endpoint, _, e3) = >>=-eq-ok (ok_or d.endpoint (required "--endpoint")) _ e2 in
    let (key, _, e4) = >>=-eq-ok (ok_or d.key (required "--key")) _ e3 in
    let (found, held, e5) = >>=-eq-ok (ok_or d.out (required "--out")) _ e4 in
    let (also, parsed, e6) = >>=-eq-ok (parse_renderings d.settings.file_mode d.also) _ e5 in
    let built : Spec = record {
      source = source;
      endpoint = endpoint;
      key = key;
      out = found;
      also = also;
      settings = d.settings;
    } in
    let (_, same) = (validated-IsChecked built).at spec e6 in
    (
      d,
      read,
      ap (λ s. s.settings) same,
      ok_or-some d.out (required "--out") found held ∙ ap (λ s. some s.out) (sym same),
      parsed ∙ ap (λ s. ok s.also) (sym same),
    )
