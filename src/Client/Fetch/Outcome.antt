-- ===== src/Client/Fetch/Outcome.antt =====
-- When a fetch gives a batch, and which.
use storage_metrics_server.Base.{◌≡◌, ◌↔◌, inl, inr, String, none, ok, arith, Result-cases}
use storage_metrics_server.Storage.Types.{MetricsBatch}
use storage_metrics_server.Client.Address.{Node, node_address}
use storage_metrics_server.Client.Summary.{Summary, summary_to_batch}
use storage_metrics_server.Client.Fetch.{
  Network, SummaryClient, Url, Response, fetch, url_for, get_metrics,
}

-- What has to go well for a node to give the batch `b`.
pub record Fetches (kc : SummaryClient) (node : Node) (b : MetricsBatch) : Type 0 where
  pub address : String
  pub response : Response
  pub summary : Summary
  pub resolved : node_address kc.address_type_priority node ≡ ok address
  pub requested : kc.client.network.request_error (url_for kc node address) ≡ none
  pub answered : kc.client.network.send (url_for kc node address) ≡ ok response
  pub status_ok : response.status_code ≡ 200
  pub decoded : kc.client.network.decode response.body ≡ ok summary
  pub batch :
      b
      ≡ summary_to_batch summary
          (kc.client.network.request_time (url_for kc node address))
          node.name

fetch_ok :
    (net : Network) (u : Url) (name : String) (b : MetricsBatch)
    → fetch net u name ≡ ok b
    → (r : Response) × (s : Summary) × (net.request_error u ≡ none)
      × (net.send u ≡ ok r)
      × (r.status_code ≡ 200)
      × (net.decode r.body ≡ ok s)
      × (b ≡ summary_to_batch s (net.request_time u) name)
unfolding fetch
fetch_ok net u name b e = elim (Result-cases (net.send u)) [
  | inr (x, p) ↦ absurd (ground (arith, p))
  | inl (r, p) ↦ elim (Result-cases (net.decode r.body)) [
    | inr (x, q) ↦ absurd (ground (arith, p, q))
    | inl (s, q) ↦ (r, s, ground arith, p, ground arith, q, ground arith)
  ]
]

get_metrics-Fetches :
    (kc : SummaryClient) (node : Node) (b : MetricsBatch)
    → get_metrics kc node ≡ ok b
    → Fetches kc node b
unfolding get_metrics
get_metrics-Fetches kc node b e = elim (Result-cases (node_address kc.address_type_priority node)) [
  | inr (x, p) ↦ absurd (ground arith)
  | inl (x, p) ↦
      let (r, s, a, q, c, d, f) =
        fetch_ok kc.client.network (url_for kc node x) node.name b (ground arith) in
      record {
        address = x;
        response = r;
        summary = s;
        resolved = p;
        requested = a;
        answered = q;
        status_ok = c;
        decoded = d;
        batch = f;
      }
]

Fetches-get_metrics :
    (kc : SummaryClient) (node : Node) (b : MetricsBatch)
    → Fetches kc node b
    → get_metrics kc node ≡ ok b
unfolding get_metrics
Fetches-get_metrics kc node b f =
    ground (arith, f.resolved, f.requested, f.answered, f.status_ok, f.decoded, f.batch)

-- A node gives a batch exactly if its address resolves, the request can be made and is answered
-- with status 200 and a body that decodes; the batch is then that of the decoded summary, with the
-- time just before the request for volumes without one.
pub get_metrics_iff :
    (kc : SummaryClient) (node : Node) (b : MetricsBatch)
    → (get_metrics kc node ≡ ok b) ↔ Fetches kc node b
get_metrics_iff kc node b = (get_metrics-Fetches kc node b, Fetches-get_metrics kc node b)
