-- ===== src/Agent/Rendering.antt =====
-- dynamic-config-agent/src/render.rs: `render`, `render_fetched` and `render_all`, the set of files that a
-- document becomes. What parses, checks and prints a document is other crates', an `Engine` here.
pub mod Whole
pub mod Calm
pub mod Confined
mod Tests
use Prim.Native.String.{len}
use dynamic_config_k8s.Prelude.{
  ℕ, String, Bool, Option, none, some, List, [], ◌∷◌, leb, Result, ok, ◌>>=◌, ◌>>◌, ensure, ok_or,
  map_err,
}
use dynamic_config_k8s.Prelude.Texts.{◌⊕◌, is_none}
use dynamic_config_k8s.Json.{Value}
use dynamic_config_k8s.Agent.Files.{FilePath, Published}
use dynamic_config_k8s.Agent.Formats.{OutputFormat, of, json, toml, yaml, ini, properties}
use dynamic_config_k8s.Agent.Flat.{Refused, flat_ini, flat_properties}
use dynamic_config_k8s.Agent.Arguments.Fields.{Spec, Rendering}

-- dynamic_config (`load`, the ceiling), jsonschema, minijinja, serde_json, toml and serde_yaml, and the
-- files that are read at each render; `E` is their errors, `F` the formats of a store
pub record Engine (F E : Type 0) : Type 0 where
  pub load : (section : String) → (whole_document : Bool) → String → F → Result E Value
  pub ceiling : ℕ
  pub satisfies : FilePath → Value → Result E (Unit {0})
  pub read_file : FilePath → Result E String
  pub template : String → Value → Result E String
  pub to_string_pretty : Value → Result E String
  pub to_toml : Value → Result E String
  pub to_yaml : Value → Result E String
  pub to_string : Value → String

-- `panicked` is an `expect` that does not hold
pub data Fault (E : Type 0) : Type 0 where
  refused : E → Fault E
  flat : Refused → Fault E
  over_ceiling panicked : Fault E
  of_output : FilePath → Fault E → Fault E

-- a document as the store gave it
pub record Document (F : Type 0) : Type 0 where
  pub text : String
  pub format : F

abbrev name_of : Option String → String
name_of none = "document"
name_of (some section) = section

module _ {F E : Type 0} (engine : Engine F E) where
  unfoldable pub resolve : Document F → Option String → Result (Fault E) Value
  resolve fetched section =
      map_err refused (engine.load (name_of section) (is_none section) fetched.text fetched.format)

  unfoldable pub render : Value → OutputFormat → Result (Fault E) String
  render document json = do
    rendered ← map_err refused (engine.to_string_pretty document)
    ok (rendered ⊕ "\n")
  render document toml = map_err refused (engine.to_toml document)
  render document yaml = map_err refused (engine.to_yaml document)
  render document ini = map_err flat (flat_ini engine.to_string document)
  render document properties = map_err flat (flat_properties engine.to_string document)

  unfoldable pub validate : Option FilePath → Value → Result (Fault E) (Unit {0})
  validate none document = ok tt
  validate (some schema) document = map_err refused (engine.satisfies schema document)

  -- the format of an output, which `Spec` has checked
  abbrev pub expected : FilePath → Result (Fault E) OutputFormat
  expected out = ok_or (of out) panicked

  unfoldable pub emit : Spec → Value → Result (Fault E) String
  unfolding render
  emit spec document = elim spec.settings.template [
    | some path ↦ do
      text ← map_err refused (engine.read_file path)
      map_err refused (engine.template text document)
    | none ↦ elim spec.settings.template_inline [
      | some text ↦ map_err refused (engine.template text document)
      | none ↦ do format ← expected spec.out; render document format
    ]
  ]

  unfoldable pub render_fetched : Document F → Spec → Result (Fault E) String
  unfolding resolve validate emit
  render_fetched fetched spec = do
    document ← resolve fetched spec.settings.section
    validate spec.settings.schema document
    emit spec document

  unfoldable pub render_also : Document F → Spec → Rendering → Result (Fault E) Published
  unfolding resolve validate render
  render_also fetched spec rendering = do
    document ← map_err (of_output rendering.out) (resolve fetched rendering.section)
    map_err (of_output rendering.out) (validate spec.settings.schema document)
    format ← expected rendering.out
    rendered ← map_err (of_output rendering.out) (render document format)
    ok (record { out = rendering.out; document = rendered; file_mode = rendering.file_mode })

  unfoldable pub render_each :
      Document F → Spec → List Rendering → Result (Fault E) (List Published)
  unfolding render_also
  render_each fetched spec [] = ok []
  render_each fetched spec (rendering ∷ more) = do
    first ← render_also fetched spec rendering
    rest ← render_each fetched spec more
    ok (first ∷ rest)

  abbrev pub ceiling_of : Option ℕ → ℕ
  ceiling_of none = engine.ceiling
  ceiling_of (some bytes) = bytes

  unfoldable pub render_all : Spec → Document F → Result (Fault E) (List Published)
  unfolding render_fetched render_each
  render_all spec fetched = do
    ensure (leb (len fetched.text) (ceiling_of spec.settings.max_document_bytes)) over_ceiling
    main ← render_fetched fetched spec
    rest ← render_each fetched spec spec.also
    ok (record { out = spec.out; document = main; file_mode = spec.settings.file_mode } ∷ rest)
