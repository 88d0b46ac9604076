-- ===== src/Proxy/Build.antt =====
-- `BuildInjector` of internal/sqlproxy/dialect/builder.go, whose injectors have no pin store.
use neksur.Prelude.{Option, none, some, if◌then◌else◌, Bytes, codes, same}
use neksur.Inject.Model.{Deps}
use neksur.Inject.Trino
use neksur.Inject.Spark
use neksur.Inject.Dremio
use neksur.Proxy.Handler.{Injector}

abbrev pub without_pins : {Cache : Type 0} → Deps Cache → Deps Cache
without_pins deps = record deps { pin_store = none }

-- `none` is ErrEngineNotSupported.
unfoldable pub build_injector : {Cache : Type 0} → Deps Cache → Bytes → Option (Injector Cache)
unfolding Trino.inject_policy Spark.inject_policy Dremio.inject_policy
build_injector deps engine_kind =
    if same engine_kind (codes "trino")
    then some (Trino.inject_policy (without_pins deps))
    else if same engine_kind (codes "spark")
    then some (Spark.inject_policy (without_pins deps))
    else if same engine_kind (codes "dremio")
    then some (Dremio.inject_policy (without_pins deps))
    else none
