-- ===== src/Helm/Batch/Global.antt =====
-- The section "global" of the batch-gateway chart: database, file storage, tracing, pull secrets.
use llm_d_batch_gateway_oper.Prelude.{String, Option, none, some, ◌==◌, if◌then◌else◌}
use llm_d_batch_gateway_oper.Prelude.Int.{ℤ, pos}
use llm_d_batch_gateway_oper.Api.Components.{ApiServerConfigSpec, FileApiConfig}
use llm_d_batch_gateway_oper.Api.Features.{
  S3StorageSpec, FsStorageSpec, FileRetrySpec, FileStorageSpec, OtelSpec,
}
use llm_d_batch_gateway_oper.Api.Gateway.{LlmBatchGateway}
use llm_d_batch_gateway_oper.Value.{
  Value, str, int, bool, arr, obj, Fields, end, put, put_if, put_some, put_fields, set_if_not_empty,
  set_if_not_zero, ◌▹◌, is_nonempty, to_interface_slice, items_of,
}
use llm_d_batch_gateway_oper.Helm.{named}

unfoldable pub s3_values : S3StorageSpec → Value
s3_values s3 = obj (
    end
    ▹ set_if_not_empty "region" s3.region
    ▹ set_if_not_empty "bucket" s3.bucket
    ▹ set_if_not_empty "endpoint" s3.endpoint
    ▹ set_if_not_empty "accessKeyId" s3.access_key_id
    ▹ set_if_not_empty "prefix" s3.prefix
    ▹ put "usePathStyle" (bool s3.use_path_style)
    ▹ put_some bool "autoCreateBucket" s3.auto_create_bucket)

unfoldable pub fs_values : FsStorageSpec → Value
fs_values fs =
    obj (end ▹ set_if_not_empty "basePath" fs.base_path ▹ set_if_not_empty "pvcName" fs.claim_name)

unfoldable pub retry_values : FileRetrySpec → Fields
retry_values r =
    end
    ▹ put_some int "maxRetries" r.max_retries
    ▹ set_if_not_empty "initialBackoff" r.initial_backoff
    ▹ set_if_not_empty "maxBackoff" r.max_backoff

abbrev pub put_retry : Option FileRetrySpec → Fields → Fields
put_retry none fc = fc
put_retry (some r) fc = fc ▹ put_fields "retry" (retry_values r)

-- Both kinds of storage may be given; the type is then that of the later one.
unfoldable pub file_client_values : FileStorageSpec → Value
file_client_values storage = obj (
    end
    ▹ put_some (λ s3. str "s3") "type" storage.s3
    ▹ put_some s3_values "s3" storage.s3
    ▹ put_some (λ fs. str "fs") "type" storage.fs
    ▹ put_some fs_values "fs" storage.fs
    ▹ put_retry storage.retry)

unfoldable pub otel_values : OtelSpec → Value
otel_values otel = obj (
    end
    ▹ set_if_not_empty "endpoint" otel.endpoint
    ▹ put "insecure" (bool otel.insecure)
    ▹ set_if_not_empty "sampler" otel.sampler
    ▹ set_if_not_empty "samplerArg" otel.sampler_arg
    ▹ put "postgresqlTracing" (bool otel.postgresql_tracing))

abbrev pub file_api_max_size : Option FileApiConfig → ℤ
file_api_max_size none = pos 0
file_api_max_size (some file_api) = file_api.max_size_bytes

-- The limit on input files, 0 where the configuration or its file API is nil.
abbrev pub max_input_file_size : Option ApiServerConfigSpec → ℤ
max_input_file_size none = pos 0
max_input_file_size (some config) = file_api_max_size config.file_api

-- `dbType`
abbrev pub db_type : String → String
db_type backend = if backend == "" then "postgresql" else backend

unfoldable pub global_values : LlmBatchGateway → String → Fields
global_values gw secret_name =
    end
    ▹ put "secretName" (str secret_name)
    ▹ put "dbClient" (obj (end ▹ put "type" (str (db_type gw.spec.db_backend))))
    ▹ put_some to_interface_slice "extraEndpoints" gw.spec.extra_endpoints
    ▹ set_if_not_zero "maxInputFileSizeBytes" (max_input_file_size gw.spec.api_server.config)
    ▹ put_some file_client_values "fileClient" gw.spec.file_storage
    ▹ put_some otel_values "otel" gw.spec.otel
    ▹ put_if (is_nonempty gw.spec.image_pull_secrets) "imagePullSecrets"
        (arr (items_of named gw.spec.image_pull_secrets))
