-- ===== src/Lib.antt =====
-- doxx scrapes product pages of shops, stores what it finds with a row of an outbox in one
-- transaction, and publishes each row to RabbitMQ from a separate service. Beside that path stand the
-- batches of events for the CRM, the policy that chooses an event, and the limits on requests.
--
-- Base holds the names that the modules share: the libraries' names, Boolean tests, and lists over the
-- native numbers. Table is a database table as a list of rows: find, update, delete, with their laws.
--
-- Store is infrastructure/persistence/sqlite_store.py. Store/Rows has the records of a snapshot, of
-- an event and of each table (domain/scraped_product.py, domain/publication_event.py), and Db, the
-- database. A method is a function from the database to the new one: Store/Runs, Store/Product,
-- Store/Details, Store/Enqueue, Store/Persist (persist_snapshot, whose `none` is an exception that
-- rolls the transaction back), Store/Outbox (has_claimable_outbox_rows, claim_outbox_batch) and
-- Store/Settle (mark_outbox_published, mark_outbox_failed). Store/Postgres is the claim of
-- infrastructure/persistence/postgres_store.py. Store/Event is
-- application/ingestion/event_builder.py, Store/Specs the flattening of specifications, Store/Iso
-- the order of times that are compared as text. Store/History has the transactions as steps, in any
-- order, from the empty database. Times are microseconds, and the clock is an argument. uuid5, the
-- printing and reading of JSON and the settings are parameters (Store/Env); a theorem that assumes
-- anything of them says so. The texts of a snapshot are taken as pydantic leaves them, stripped.
--
-- Publisher is services/publisher/publication_worker.py with outbox_reader.py: one run claims a batch,
-- publishes each event and marks its row. The broker and the clock are parameters (World).
-- Publisher/Claimed is what a claim hands to it, Publisher/Settling what a mark leaves. Contract is assert_rabbit_publish_contract of domain/publication_event.py. Fingerprint is the
-- normalisation of texts and image addresses of domain/scrape_fingerprints.py; urlsplit is a parameter,
-- and an address on which it raises is outside the model.
--
-- Rabbit is the RabbitMQPublisher of services/publisher/rabbit_publisher.py. aio-pika is a parameter
-- (Aio): which of its calls raise an exception, by their number, and when a resource is closed. A
-- method is a function from the transport to the exception, if any, and the new transport.
--
-- Batch is infrastructure/sync/batch_coordinator.py. Sync is the pipeline that calls it,
-- infrastructure/pipelines/sync_pipeline.py: Sync/Items settles one event by the CRM's result,
-- Sync/Rounds is a flush, process_item and the loop of close_spider, and Sync/Runs the runs of a spider
-- from open_spider on. A round is a function from the pipeline to the new one and whether an exception
-- is raised. The transport's answers by batch, the feature flag and the ids of new events are a
-- parameter (World), and the event that the builder makes of an item is an argument. The calls of
-- process_item follow one another; that Scrapy may interleave them where they wait is left out.
-- Sync/Settled puts the pipeline together with the classifier and the reconciliation.
--
-- Crm has the types of domain/crm_apply_result.py; Crm/Answers and Crm/Classify are
-- application/lifecycle/apply_result_classifier.py, with Python's operations on texts as a parameter
-- (TextOps). Reconcile is application/lifecycle/reconciliation.py.
--
-- Transport is CrmHttpTransport of infrastructure/transports/crm_http.py. A method is an action: from
-- the requests so far and the transport's two flags to its result or exception and the new state. The
-- replies by the number of their request are a parameter (Network), with the policy on redirects and
-- hosts and Python's float. Of the exceptions of httpx only TransportError, which the code catches,
-- is among the replies. Transport/Settling puts it together with Sync/Rounds.
--
-- Admission is application/performance/concurrency_policy.py, with the counters of
-- infrastructure/performance/resource_tracker.py in Admission/Tracker, the requests of
-- infrastructure/access/resource_governance.py in Admission/Requests, and the advice of
-- application/performance/backpressure_policy.py in Admission/Backpressure. str.lower, the budgets of
-- the stores and the memory in use are parameters.
--
-- Access is the access layer: the choice of a request's mode of
-- infrastructure/access/request_strategy.py, with Access/Backoff for backoff_engine.py, Access/Spikes
-- for ban_signal_monitoring.py and Access/Proxies for proxy_policy.py, the choice among proxies by
-- their health, beside it, and Access/Middlewares for ratelimit_middleware.py and retry_middleware.py of
-- infrastructure/middlewares. The signal of a response, the captcha solver with what it writes into a
-- request's meta, Scrapy's retry and the median are parameters.
--
-- Rollout is is_feature_enabled of application/release/rollout_policy_engine.py with canary_selector.py
-- and rollout_guard.py; the registry of features and the bucket of a key are parameters.
--
-- Replay is what application/lifecycle/lifecycle_builder.py makes of the policy's choice, with
-- replay_policy.py, delta_downgrade.py and idempotency.py; an error is none. Its decision comes from
-- Lifecycle, which is application/lifecycle/lifecycle_policy.py. The rollout and the item's change
-- hint are arguments.
--
-- Recency is infrastructure/sync/runtime_identity_bridge.py, runtime_replay_journal.py and
-- runtime_registry.py: ordered dictionaries that drop their oldest entries beyond a limit, oldest
-- first in a list. Recency/Crawl is infrastructure/spiders/runtime_crawl_registry.py.
--
-- Loops are recursion on the list they go through; the loop of three rounds in Admission/Requests is
-- recursion on the number of rounds, as in the code, and so is the loop of 2000 rounds of close_spider
-- in Sync/Rounds and the loop over the attempts of a request in Transport. No definition needs fuel.
--
-- Not modelled: the migration of old databases, the rest of the Postgres store, the signing and the
-- headers of requests, the spiders, the detectors and the reading of pages, the pipelines that are
-- Scrapy glue, and logging, metrics, reports and the user interface, which do not decide what is
-- stored or sent.
pub mod Access
pub mod Admission
pub mod Base
pub mod Batch
pub mod Contract
pub mod Crm
pub mod Fingerprint
pub mod Lifecycle
pub mod Publisher
pub mod Rabbit
pub mod Recency
pub mod Reconcile
pub mod Replay
pub mod Rollout
pub mod Store
pub mod Sync
pub mod Table
pub mod Transport
