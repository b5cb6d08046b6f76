-- ===== src/Lib.antt =====
-- storage-metrics-server: a custom metrics API server for the capacity and the use of persistent
-- volume claims. On a timer it asks every node's kubelet for its summary, keeps the freshest sample
-- of each claim in memory, and answers queries for a claim's metrics from that cache.
--
-- The parts, in the order in which a sample passes through them:
--   Client: the request to one kubelet (pkg/storagemetrics/scraper/client). Client/Address is
--     address_resolver.go (`node_address` is NodeAddress), Client/Fetch is GetMetrics and getMetrics
--     of summary_client.go, Client/Summary is summaryToBatch.
--   Scraper: pkg/storagemetrics/scraper/scraper.go. `merged_batch` is the loop of Scrape over the
--     batches; Scraper/FanOut is a step relation on its goroutines and their channel, Scraper/Delay
--     their sleeps.
--   Manager: pkg/storagemetrics/manager/manager.go, `run_until` and `tick`.
--   Storage: pkg/storagemetrics/storage, one function for each method, with the lock and its
--     interleavings in Storage/Locking and, in Storage/View, the cache as its readers know it.
--   Provider: pkg/storagemetrics/provider. `metric_from_point` is metricFromPoint, with the float64
--     arithmetic of its percentages in Float, and the provider's three methods carry their names.
--     Provider/Interleaved has the updates of the cache between the reads of one selector query.
--   Api: pkg/provider, the interface, the errors and the discovery lists.
--   Registry: pkg/registry, `list` of the custom metrics and `external_list` of the external ones.
--   Handler: pkg/apiserver/endpoints/handlers/get.go, `list_resource_with_options`, with the
--     conversion of its options (pkg/apiserver/installer/conversion.go) in Handler/Options.
--   Installer: pkg/apiserver/installer. `install_rest` is InstallREST, Installer/Params is
--     addObjectParams, Installer/Kinds getResourceKind, and Installer/Custom and Installer/External
--     are registerResourceHandlers of cmhandlers.go and emhandlers.go, with what the two have in
--     common in Installer/Prepared.
--   Server: pkg/apiserver, `new_server` is New of apiserver.go, with the installation of the two APIs
--     (cmapis.go, emapis.go). A route keeps the storage that its handler asks, with its provider;
--     `route_answer` of Server/Asked is restfulListResourceWithOptions.
--   Memory: the cells that objects have pointers to. A provider of the adapter is a function of the
--     memory, so that what a route answers depends on what other parts have written.
--   Adapter: pkg/cmd/builder.go, the state of AdapterBase, with its getters under their names in
--     Adapter/Clients and Adapter/Setup (InstallFlags, Config, Server and Run there as well, which
--     call the functions of CmdOptions and Server), and mergeOpenAPIDefinitions in Adapter/Merge.
--   CmdOptions: pkg/cmd/options/options.go, `apply_to` is ApplyTo and `validate_server` Validate.
--   Mapper: pkg/dynamicmapper/mapper.go, the mapper that is made anew on a timer.
--   Options: pkg/storagemetrics/options/options.go; Flags is what the program does with its flag set.
--   Command: cmd/storage-metrics-server/main.go, `main` and `run`, which run the adapter's server on
--     the provider that they wire; `wire` makes one store and gives its pointer to both the manager and
--     the provider.
--   TestAdapter: test-adapter/provider/provider.go, `update_metric` and the queries under their names,
--     and TestAdapter/Program test-adapter/main.go;
--     Api/Helpers and Api/Defaults are the pkg/provider/helpers and pkg/provider/defaults that it uses.
--   Consumer: consumer/main.go, the sample client, against the server in Consumer/Shown.
-- Freshness is the reference for "the freshest sample wins" that both folds are compared with.
-- Pipeline composes the parts, with the manager's loop in Pipeline/Running and a client's requests in
-- Pipeline/Requests. Examples applies the theorems to concrete inputs.
--
-- Conventions. An int64, a duration and an instant of time are integers, a uint64 is a natural
-- number, with the wrap-around of int64(n) written out in `to_int64`. A Go map is an association
-- list that holds each key once; its order is one order of `range`. A pointer or a slice that may be
-- nil is an Option. A float64 is a natural number of units of 2^-1074 that is rounded to 53 bits
-- after each operation. The only fuel is that of `bit_length`, which halves its number and is given
-- the number itself.
--
-- Not modelled: logging, contexts and their time-outs (a fetch that times out is a fetch that
-- fails), TLS, HTTP, JSON, the informers and label selectors, which are parameters; the texts of
-- errors and URLs, which keep their parts; the parsing of arguments and the help texts of flags; the
-- registration of types in the scheme, the freshness histogram, generated code, and the provider
-- of pkg/provider/fake, which answers empty values.
mod Base
pub mod Storage
pub mod Freshness
pub mod Client
pub mod Scraper
pub mod Manager
pub mod Api
pub mod Float
pub mod Provider
pub mod Flags
pub mod Options
pub mod Registry
pub mod Handler
pub mod Mapper
pub mod Memory
pub mod Adapter
pub mod Command
pub mod Installer
pub mod Server
pub mod CmdOptions
pub mod TestAdapter
pub mod Consumer
pub mod Pipeline
pub mod Examples
