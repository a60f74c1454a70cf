-- ===== src/Helm/Rendered.antt =====
-- The objects that a chart's templates come to: all of their documents, in their order.
use llm_d_batch_gateway_oper.Prelude.{
  String, ◌≡◌, refl, sym, ap, ◌∙◌, inl, inr, ◌||◌, List, [], ◌∷◌, ◌++◌, map, ◌==◌, if◌then◌else◌,
  All, Bool-cases,
}
use llm_d_batch_gateway_oper.Api.Gateway.{LlmBatchGateway}
use llm_d_batch_gateway_oper.Controller.Errors.{
  Result, ok, err, Result-cases, RenderError, decoding_template,
}
use llm_d_batch_gateway_oper.Controller.Objects.{Object}
use llm_d_batch_gateway_oper.Value.{Fields, obj}
use llm_d_batch_gateway_oper.Helm.Render.{
  Document, empty_document, document, malformed, Chart, is_blank, base_name, template_objects,
  join_objects, templates_objects, rendered_objects, render_templates, render_chart,
}

-- A document with the name of its template.
abbrev pub Named : Type 0
Named = String × Document

abbrev name_documents : String → List Document → List Named
name_documents name documents = map (λ (d : Document). (name, d)) documents

module _ {RenderValues : Type 0} (chart : Chart RenderValues) where
  -- The documents of a rendered template that is neither blank nor NOTES.txt.
  abbrev documents_of : String × String → List Named
  documents_of (name, content) =
      if is_blank content || base_name name == "NOTES.txt"
      then []
      else name_documents name (chart.decode content)

  abbrev pub all_documents : List (String × String) → List Named
  all_documents [] = []
  all_documents (template ∷ templates) = documents_of template ++ all_documents templates

-- The objects of the documents, up to the first malformed one.
abbrev pub collect : (Object → Object) → List Named → Result RenderError (List Object)
collect f [] = ok []
collect f ((name, empty_document) ∷ documents) = collect f documents
collect f ((name, document object) ∷ documents) =
    join_objects (ok (f object ∷ [])) (collect f documents)
collect f ((name, malformed text) ∷ documents) = err (decoding_template name text)

module _ (f : Object → Object) where
  template_objects-collect :
      (name : String) (documents : List Document)
      → template_objects name f documents ≡ collect f (name_documents name documents)
  unfolding template_objects
  template_objects-collect name [] = refl
  template_objects-collect name (empty_document ∷ documents) =
      template_objects-collect name documents
  template_objects-collect name (malformed text ∷ documents) = refl
  template_objects-collect name (document object ∷ documents) =
      one (template_objects name f documents)
      ∙ ap (join_objects (ok (f object ∷ []))) (template_objects-collect name documents)
    where
      one :
          (r : Result RenderError (List Object))
          → (elim r [ ok objects ↦ ok (f object ∷ objects) | err e ↦ err e ])
            ≡ join_objects (ok (f object ∷ [])) r
      one (ok objects) = refl
      one (err e) = refl

  join_objects_cons :
      (object : Object) (a b : Result RenderError (List Object))
      → join_objects (join_objects (ok (object ∷ [])) a) b
        ≡ join_objects (ok (object ∷ [])) (join_objects a b)
  join_objects_cons object (err e) b = refl
  join_objects_cons object (ok xs) (err e) = refl
  join_objects_cons object (ok xs) (ok ys) = refl

  join_objects_nil : (a : Result RenderError (List Object)) → join_objects (ok []) a ≡ a
  join_objects_nil (err e) = refl
  join_objects_nil (ok xs) = refl

  collect-append :
      (xs ys : List Named) → collect f (xs ++ ys) ≡ join_objects (collect f xs) (collect f ys)
  collect-append [] ys = sym (join_objects_nil (collect f ys))
  collect-append ((name, empty_document) ∷ xs) ys = collect-append xs ys
  collect-append ((name, malformed text) ∷ xs) ys = refl
  collect-append ((name, document object) ∷ xs) ys =
      ap (join_objects (ok (f object ∷ []))) (collect-append xs ys)
      ∙ sym (join_objects_cons (f object) (collect f xs) (collect f ys))

  -- The two nested loops of `renderChart` give the objects of all documents of the rendered templates
  -- that are neither blank nor called NOTES.txt, in the order of the templates and, within one, of its
  -- documents, empty documents left out, each changed by the post-processing; or, if some such document
  -- is malformed, the error of the first one, with its template's name.
  pub templates_objects-collect :
      {RenderValues : Type 0} (chart : Chart RenderValues) (templates : List (String × String))
      → templates_objects chart f templates ≡ collect f (all_documents chart templates)
  unfolding templates_objects
  templates_objects-collect chart [] = refl
  templates_objects-collect chart ((name, content) ∷ templates) =
      elim (Bool-cases (is_blank content || base_name name == "NOTES.txt")) [
        | inl e ↦ rw e (templates_objects-collect chart templates)
        | inr e ↦
            rw
              (
                e,
                templates_objects-collect chart templates,
                template_objects-collect name (chart.decode content),
              )
              (sym (
                collect-append (name_documents name (chart.decode content))
                  (all_documents chart templates)))
      ]

-- The objects have the property that post-processing gives them.
module _ (f : Object → Object) (P : Object → Type 0)
    (gives : (object : Object) → P (f object)) where
  cons-All :
      (object : Object) (r : Result RenderError (List Object)) (objects : List Object)
      → ((others : List Object) → r ≡ ok others → All P others)
      → join_objects (ok (f object ∷ [])) r ≡ ok objects
      → All P objects
  cons-All object (ok others) objects h e =
      let same : objects ≡ f object ∷ others = cc e in rw same (gives object, h others refl)
  cons-All object (err x) objects h e = absurd (cc)

  pub collect-All :
      (documents : List Named) (objects : List Object)
      → collect f documents ≡ ok objects
      → All P objects
  collect-All [] objects h = let same : objects ≡ [] = cc h in rw same tt
  collect-All ((name, empty_document) ∷ documents) objects h = collect-All documents objects h
  collect-All ((name, malformed text) ∷ documents) objects h = absurd (cc)
  collect-All ((name, document object) ∷ documents) objects h =
      cons-All object (collect f documents) objects (λ others e. collect-All documents others e) h

  pub render_chart-All :
      {RenderValues : Type 0} (chart : Chart RenderValues) (gw : LlmBatchGateway) (values : Fields)
      (objects : List Object)
      → render_chart chart f gw values ≡ ok objects
      → All P objects
  unfolding render_chart render_templates rendered_objects
  render_chart-All chart gw values objects h =
      elim (Result-cases (chart.to_render_values (obj values) gw.name gw.namespace)) [
        | inr (e, k) ↦ absurd (cc (rw k at h))
        | inl (rv, k) ↦ elim (Result-cases (chart.render rv)) [
          | inr (e, l) ↦ absurd (cc (rw (k, l) at h))
          | inl (templates, l) ↦
              collect-All (all_documents chart templates) objects
                (sym (templates_objects-collect f chart templates) ∙ (rw (k, l) at h))
        ]
      ]
