-- ===== src/Store/Env.antt =====
-- What the store takes from elsewhere: the settings (config/settings.py), and the functions of
-- uuid, orjson and pydantic that it calls.
use doxx.Base.{ℕ, String, Option}
use doxx.Store.Rows.{Json, ScraperProductEvent, ScrapedProductPayload}

pub record Settings : Type 0 where
  pub message_schema_version : ℕ
  pub rabbitmq_queue : String
  pub scraper_outbox_max_retries : ℕ
  pub scraper_outbox_retry_base_seconds : ℕ

-- `loads_event` is `model_validate(json_loads(text))`, `none` where that raises.
pub record Externals : Type 0 where
  pub uuid5 : String → String
  pub dumps_event : ScraperProductEvent → String
  pub loads_event : String → Option ScraperProductEvent
  pub dumps_payload : ScrapedProductPayload → String
  pub json_dumps : Json → String
  pub str_of : Json → String
