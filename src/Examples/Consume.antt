-- ===== src/Examples/Consume.antt =====
-- The consumer outside of a cluster, against a server with one claim of its namespace.
use storage_metrics_server.Base.{
  refl, String, ◌==◌, string_eq, if◌then◌else◌, pos, none, some, [], ◌∷◌, Result, ok, err,
}
use storage_metrics_server.Storage.{new_storage, store}
use storage_metrics_server.Provider.{Provider}
use storage_metrics_server.Registry.{list_values}
use storage_metrics_server.Provider.{as_provider}
use storage_metrics_server.Handler.{
  Request, Response, answered, failed, panicked, list_resource_with_options,
}
use storage_metrics_server.Base.{Bool}
use storage_metrics_server.Consumer.{HttpResponse, World, main}
use storage_metrics_server.Consumer.Ended.{IsEnded, main-IsEnded}
use storage_metrics_server.Consumer.Shown.{Codec}
use storage_metrics_server.Examples.Data.{overflow, sample, lister}
use storage_metrics_server.Examples.Requests.{selectors, scope}

abbrev default_provider : Provider Bool
default_provider = record {
  store =
      store
        (some (record {
          pvcs = some ((record { namespace = "default"; name = "data" }, sample "a" (pos 5)) ∷ []);
        }))
        new_storage;
  pvc_lister = some lister;
}

-- The request that the server makes of the consumer's URL.
abbrev request : Request
request = record {
  info = some (record {
    namespace = "default";
    resource = "persistentvolumeclaims";
    subresource = "volume_used_percentage";
    name = "*";
    parts = "persistentvolumeclaims" ∷ "*" ∷ "volume_used_percentage" ∷ [];
    path =
        "/apis/custom.metrics.k8s.io/v1beta2/namespaces/default/persistentvolumeclaims/*/volume_used_percentage";
  });
  query = [];
}

-- A body is the response that was written.
abbrev written : Response → Result String (HttpResponse Response)
written (answered items) = ok (record { status_code = 200; body = answered items })
written (failed e) = ok (record { status_code = 500; body = failed e })
written panicked = err "EOF"

abbrev world : World String Response
world = record {
  in_cluster_config = err "not in a cluster";
  getenv = λ name. if name == "HOME" then "/root" else "";
  build_config = λ path. if path == "/root/.kube/config" then ok "https://a" else err path;
  host = λ host. host;
  http_client_for = λ host. ok (λ url. written (
      list_resource_with_options selectors scope
        (list_values selectors (as_provider overflow default_provider)) request));
  new_request = λ url. none;
  decode =
      λ body. elim body [ answered items ↦ ok items | failed e ↦ ok [] | panicked ↦ err "EOF" ];
  text_of = λ q. "some";
}

abbrev codec : Codec world
codec = record {
  write = written;
  list_written = λ items. (record { status_code = 200; body = answered items }, refl, refl);
  status_written = λ e. (record { status_code = 500; body = failed e }, refl, refl);
  closed = ("EOF", refl);
}

main-IsEnded_example : IsEnded world (main world)
main-IsEnded_example = main-IsEnded world
