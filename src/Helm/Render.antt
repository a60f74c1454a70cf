-- ===== src/Helm/Render.antt =====
-- Rendering of a chart into objects (`renderChart`, `RenderBatchChart`, `RenderAsyncChart`). Helm's
-- engine and the YAML decoder are parameters.
use Prim.Native.Char.{Char, code}
use llm_d_batch_gateway_oper.Prelude.{
  ℕ, String, Bool, true, ◌&&◌, ◌||◌, ◌==◌, List, [], ◌∷◌, ◌++◌, if◌then◌else◌, leb,
}
use llm_d_batch_gateway_oper.Prelude.Assoc.{insert}
use llm_d_batch_gateway_oper.Api.Gateway.{LlmBatchGateway}
use llm_d_batch_gateway_oper.Value.{Value, Fields, obj}
use llm_d_batch_gateway_oper.Tls.{ProfileValues}
use llm_d_batch_gateway_oper.Helm.{ComponentImages, Unmarshal}
use llm_d_batch_gateway_oper.Helm.Images.{is_char, contains_char}
use llm_d_batch_gateway_oper.Helm.Async.{spec_to_async_helm_values}
use llm_d_batch_gateway_oper.Helm.Batch.Values.{spec_to_batch_helm_values}
use llm_d_batch_gateway_oper.Controller.Errors.{
  Result, ok, err, RenderError, preparing_values, rendering_templates, decoding_template,
}
use llm_d_batch_gateway_oper.Controller.Objects.{Object}

-- The next document of a template: an object, one without any field, or text that is no YAML.
pub data Document : Type 0 where
  empty_document : Document
  document : Object → Document
  malformed : String → Document

-- The chart and Helm's functions on it: `chartutil.ToRenderValues` for the release's name and
-- namespace, `engine.Render`, the templates with their names in the order of the `range`, and the
-- documents that a decoder yields until the end of the text.
pub record Chart (RenderValues : Type 0) : Type 0 where
  pub to_render_values : Value → String → String → Result String RenderValues
  pub render : RenderValues → Result String (List (String × String))
  pub decode : String → List Document

-- `unicode.IsSpace`
abbrev pub is_space : Char → Bool
is_space c =
    let n = code c in
    (leb 9 n && leb n 13)
    || is n 32
    || is n 133
    || is n 160
    || is n 5760
    || (leb 8192 n && leb n 8202)
    || is n 8232
    || is n 8233
    || is n 8239
    || is n 8287
    || is n 12288
  where
    is : ℕ → ℕ → Bool
    is a b = leb a b && leb b a

-- `len(strings.TrimSpace(content)) == 0`
unfoldable pub is_blank : String → Bool
is_blank String.[] = true
is_blank (String.◌∷◌ c s) = is_space c && is_blank s

abbrev pub is_slash : Char → Bool
is_slash c = is_char b'/' c

unfoldable pub without_slashes : String → String
without_slashes String.[] = ""
without_slashes (String.◌∷◌ c s) =
    let rest = without_slashes s in if is_slash c && rest == "" then "" else String.◌∷◌ c rest

unfoldable pub last_segment : String → String
last_segment String.[] = ""
last_segment (String.◌∷◌ c s) =
    let rest = last_segment s in
    if contains_char b'/' s then rest else if is_slash c then s else String.◌∷◌ c s

-- `filepath.Base`
unfoldable pub base_name : String → String
base_name path =
    if path == ""
    then "."
    else if without_slashes path == ""
    then "/"
    else last_segment (without_slashes path)

-- The loop over the documents of one template.
unfoldable pub template_objects :
    String → (Object → Object) → List Document → Result RenderError (List Object)
template_objects name post_process [] = ok []
template_objects name post_process (malformed text ∷ documents) = err (decoding_template name text)
template_objects name post_process (empty_document ∷ documents) =
    template_objects name post_process documents
template_objects name post_process (document object ∷ documents) =
    elim (template_objects name post_process documents) [
      | ok objects ↦ ok (post_process object ∷ objects)
      | err e ↦ err e
    ]

abbrev pub join_objects :
    Result RenderError (List Object)
    → Result RenderError (List Object)
    → Result RenderError (List Object)
join_objects (err e) rest = err e
join_objects (ok objects) (err e) = err e
join_objects (ok objects) (ok others) = ok (objects ++ others)

module _ {RenderValues : Type 0} (chart : Chart RenderValues) (post_process : Object → Object) where
  unfoldable pub templates_objects : List (String × String) → Result RenderError (List Object)
  templates_objects [] = ok []
  templates_objects ((name, content) ∷ templates) =
      let rest = templates_objects templates in
      if is_blank content || base_name name == "NOTES.txt"
      then rest
      else join_objects (template_objects name post_process (chart.decode content)) rest

  -- The answer of the engine.
  unfoldable pub rendered_objects :
      Result String (List (String × String)) → Result RenderError (List Object)
  unfolding templates_objects
  rendered_objects (err e) = err (rendering_templates e)
  rendered_objects (ok templates) = templates_objects templates

  unfoldable pub render_templates : Result String RenderValues → Result RenderError (List Object)
  unfolding rendered_objects
  render_templates (err e) = err (preparing_values e)
  render_templates (ok values) = rendered_objects (chart.render values)

  unfoldable pub render_chart : LlmBatchGateway → Fields → Result RenderError (List Object)
  render_chart gw values =
      render_templates (chart.to_render_values (obj values) gw.name gw.namespace)

-- The label by which the status finds the component.
abbrev pub label_async : Object → Object
label_async object = record object {
  labels = insert "app.kubernetes.io/component" "async-processor" object.labels;
}

-- `HelmRenderer`
pub record HelmRenderer (RenderValues : Type 0) : Type 0 where
  pub chart : Chart RenderValues
  pub images : ComponentImages
  pub tls_profile : ProfileValues

module _ {RenderValues : Type 0} (h : HelmRenderer RenderValues) where
  unfoldable pub render_batch_chart : LlmBatchGateway → String → Result RenderError (List Object)
  render_batch_chart gw secret_name =
      render_chart h.chart (λ object. object) gw
        (spec_to_batch_helm_values gw secret_name h.images h.tls_profile)

  unfoldable pub render_async_chart :
      Unmarshal → LlmBatchGateway → String → Result RenderError (List Object)
  render_async_chart unmarshal gw secret_name =
      render_chart h.chart label_async gw
        (spec_to_async_helm_values unmarshal gw secret_name h.images)
