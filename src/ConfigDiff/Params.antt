-- ===== src/ConfigDiff/Params.antt =====
-- The registry of parameters that can change at run time: internal/configdiff/dynamic_params.go.
use aerospike_ce_kubernetes.Prelude.{String, Bool, List, [], ◌∷◌, contains}

dynamic_params : List String
dynamic_params =
    "service.proto-fd-max" ∷ "service.transaction-queues" ∷ "service.transaction-threads-per-queue"
    ∷ "service.batch-index-threads" ∷ "service.batch-max-buffers-per-queue"
    ∷ "service.batch-max-unused-buffers" ∷ "service.info-threads" ∷ "service.migrate-fill-delay"
    ∷ "service.migrate-max-num-incoming" ∷ "service.migrate-threads" ∷ "service.proto-fd-idle-ms"
    ∷ "service.query-threads-limit" ∷ "service.scan-threads-limit" ∷ "service.ticker-interval"
    ∷ "network.heartbeat.interval" ∷ "network.heartbeat.timeout"
    ∷ "network.fabric.channel-bulk-recv-threads" ∷ "network.fabric.channel-ctrl-recv-threads"
    ∷ "network.fabric.channel-meta-recv-threads" ∷ "network.fabric.channel-rw-recv-threads"
    ∷ "network.fabric.recv-rearm-threshold" ∷ "network.fabric.send-threads"
    ∷ "namespace.default-ttl" ∷ "namespace.high-water-disk-pct" ∷ "namespace.high-water-memory-pct"
    ∷ "namespace.stop-writes-pct" ∷ "namespace.stop-writes-sys-memory-pct"
    ∷ "namespace.migrate-order" ∷ "namespace.migrate-retransmit-ms" ∷ "namespace.migrate-sleep"
    ∷ "namespace.nsup-hist-period" ∷ "namespace.nsup-period" ∷ "namespace.nsup-threads"
    ∷ "namespace.prefer-uniform-balance" ∷ "namespace.rack-id" ∷ "namespace.read-page-cache"
    ∷ "namespace.transaction-pending-limit" ∷ "namespace.write-commit-level-override"
    ∷ "logging.any" ∷ "logging.misc" ∷ "logging.alloc" ∷ "logging.arenax" ∷ "logging.hardware"
    ∷ "logging.msg" ∷ "logging.namespace" ∷ "logging.network" ∷ "logging.os" ∷ "logging.proto"
    ∷ "logging.record" ∷ "logging.socket" ∷ "logging.xdr" ∷ "security.log.report-authentication"
    ∷ "security.log.report-sys-admin" ∷ "security.log.report-user-admin"
    ∷ "security.log.report-violation" ∷ []

unfoldable pub is_dynamic : String → Bool
unfolding dynamic_params
is_dynamic param_path = contains param_path dynamic_params
