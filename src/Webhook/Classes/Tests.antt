-- ===== src/Webhook/Classes/Tests.antt =====
-- dynamic-config-webhook/src/classes.rs: a list of the cluster, and two classes of one name.
use dynamic_config_k8s.Json.{Values, as_array}
use dynamic_config_k8s.Prelude.{true, false, ◌≡◌, refl, none, some, [], ◌∷◌}
use dynamic_config_k8s.Json.{
  Value, object, array, text, no_values, next, no_fields, field, get, pointer, texts,
}
use dynamic_config_k8s.Webhook.Classes.{
  Class, insert, from_list, class_of, credential, add_items, admits,
}

-- a class of the cluster whose credential is in the namespace `vault`
abbrev listed : Value
listed = object (
    field "items"
      (array (
        next
          (object (
            field "metadata" (object (field "name" (text "main") no_fields)) (
              field "spec"
                (object (
                  field "source" (text "vault") (
                    field "endpoint" (text "https://v") (
                      field "tokenSecret"
                        (object
                          (field "name" (text "t") (field "namespace" (text "vault") no_fields)))
                        (field "namespaces" (array (next (text "shop") no_values)) no_fields)))))
                no_fields)))
          no_values))
      no_fields)

abbrev main : Class
main = record {
  source = "vault";
  endpoint = "https://v";
  token_secret = some "t/token";
  namespaces = some ("shop" ∷ []);
  credential_elsewhere = some "vault";
}

reads : from_list listed false ≡ (("", "main"), main) ∷ []
unfolding from_list add_items class_of credential insert pointer get texts
reads = refl

serves_shop : admits main "shop" ≡ true
unfolding admits
serves_shop = refl

abbrev objects : Values
objects = elim (as_array (get "items" listed)) [ none ↦ no_values | some items ↦ items ]

abbrev own : Class
own = record main { namespaces = none; credential_elsewhere = none }
