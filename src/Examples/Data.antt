-- ===== src/Examples/Data.antt =====
-- A cluster of two nodes that both report one claim, node_b the fresher sample, and a network that
-- answers every kubelet with one summary.
use storage_metrics_server.Base.{
  ℤ, ℕ, negsuc, Bool, String, pos, true, false, none, some, List, [], ◌∷◌, ok,
}
use storage_metrics_server.Storage.Types.{NamespacedName, PvcMetricsPoint, MetricsBatch, Time}
use storage_metrics_server.Storage.{new_storage, store}
use storage_metrics_server.Provider.{Provider, PvcLister, new_quantity}
use storage_metrics_server.Api.{MetricValue, binary_si}
use storage_metrics_server.Client.Address.{Node, default_address_type_priority}
use storage_metrics_server.Client.Summary.{VolumeStats, Summary}
use storage_metrics_server.Client.Fetch.{Network, SummaryClient}

abbrev pub claim : NamespacedName
claim = record { namespace = "apps"; name = "data" }

abbrev pub sample : String → Time → PvcMetricsPoint
sample node t = record {
  node = node;
  timestamp = t;
  capacity_bytes = 4;
  available_bytes = 1;
  used_bytes = 3;
  inodes = 0;
  inodes_free = 0;
  inodes_used = 0;
  has_inodes = false;
  has_capacity = true;
}

abbrev pub batch_a : MetricsBatch
batch_a = record { pvcs = some ((claim, sample "a" (pos 5)) ∷ []) }

abbrev pub batch_b : MetricsBatch
batch_b = record { pvcs = some ((claim, sample "b" (pos 7)) ∷ []) }

abbrev pub node_named : String → Node
node_named n = record {
  name = n;
  addresses = record { type = "InternalIP"; address = "10.0.0.1" } ∷ [];
  kubelet_port = pos 10250;
}

abbrev pub nodes : List Node
nodes = node_named "a" ∷ node_named "b" ∷ []

abbrev pub volume : VolumeStats
volume = record {
  pvc_ref = some (record { name = "data"; namespace = "apps" });
  time = pos 7;
  available_bytes = some 1;
  capacity_bytes = some 4;
  used_bytes = some 3;
  inodes_free = none;
  inodes = none;
  inodes_used = none;
}

abbrev pub summary : Summary
summary = record { pods = record { volume_stats = volume ∷ [] } ∷ [] }

abbrev pub network : Network
network = record {
  request_error = λ u. none;
  request_time = λ u. pos 9;
  send = λ u. ok (record { status_code = 200; status = "200 OK"; body = "{}" });
  decode = λ b. ok summary;
}

abbrev pub client : SummaryClient
client = record {
  default_port = pos 10250;
  use_node_status_port = false;
  client = record { network = network; timeout = pos 10 };
  scheme = "https";
  address_type_priority = default_address_type_priority;
}

-- int64 of a float that does not fit, on amd64
abbrev pub overflow : ℕ → ℤ
overflow t = negsuc 9223372036854775807

-- A lister that gives two claims, of which the cache has the first.
abbrev pub lister : PvcLister Bool
lister = record { list = λ namespace selector. ok ("data" ∷ "new" ∷ []) }

abbrev pub provider : Provider Bool
provider = record { store = store (some batch_b) new_storage; pvc_lister = some lister }

abbrev pub used_value : MetricValue
used_value = record {
  described_object = record {
    api_version = "v1";
    kind = "PersistentVolumeClaim";
    name = "data";
    namespace = "apps";
  };
  metric_name = "volume_used_bytes";
  selector = none;
  timestamp = pos 7;
  value = new_quantity (pos 3) binary_si;
}
