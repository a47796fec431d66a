-- ===== src/KubeApi/Obeys.antt =====
-- The handlers of the Kubernetes API do what Asked.antt says.
use anomaly_metric_creator.Base.{string_eq}
use anomaly_metric_creator.Json.{Json}
use anomaly_metric_creator.Mutations.Methods
use anomaly_metric_creator.Mutations.Methods.{EventKey, WorkloadChange}
use anomaly_metric_creator.KubeApi.Issues.{Requests, Issues}
