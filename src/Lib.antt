-- ===== src/Lib.antt =====
-- market-data: a service that keeps candles, tickers, statistics and instruments of exchanges and
-- serves them by gRPC. This library is about its candle path, its snapshots, the control of its
-- requests to the exchanges, the checks of what they answer, and its settings.
--
-- The program. A reader asks internal/application/kline for the candles of a series (an exchange, a
-- market, a symbol and an interval) between two slot boundaries. The service reads what the candle
-- repository (internal/infrastructure/storage/memory/kline.go) holds, plans pages for what is
-- missing or not yet final, loads them upstream, and writes them back as one batch. Slots come from
-- the calendar of internal/domain/timeframe.go, and a retention job deletes what is too old.
--
-- Every request to an exchange passes the controller of internal/infrastructure/exchange/upstream:
-- it waits in a lane, and is sent when the windows of its scope have room for its cost, its lane
-- has a slot and its turn comes. What the windows, lanes and shares are is set by internal/config,
-- whose checks run before anything else.
--
-- The files.
--   Prelude and its children: shared names, Boolean tests, lists, the integers (int64) and finite
--     maps, which stand for Go maps.
--   Errors: the error values of internal/application/errors.go and internal/domain/timeframe.go, and
--     `Result`, a value or an error. An error that wraps two others is `both` of them.
--   Domain/Names, Domain/Market: internal/domain/market.go and the intervals.
--   Domain/Time: UTC times of package time, as nanoseconds since its absolute zero year, with the
--     civil calendar (`Year`, `Month`, `Date`, `Unix`). Domain/Time/Months: its months.
--   Domain/Grid: an increasing sequence of boundaries and the slot of a time. This is what a
--     calendar promises, apart from how it computes it.
--   Domain/Timeframe: internal/domain/timeframe.go, one function per method of `Calendar`. Its
--     children give each calendar its grid (Boundaries) and compare each method with it.
--   Application/Context: a context as the answers of its `Err` method, by the number of the call.
--   Application/Series: the records of internal/application/contracts.go and of
--     internal/application/kline/contracts.go.
--   Application/Snapshot: `SelectSnapshot` of internal/application/snapshot.go, with the decoding of
--     UTF-8 that it takes from package unicode/utf8.
--   Application/Planner: internal/application/kline/fetch_planner.go, and what it uses of `refreshes`
--     in internal/application/kline/service.go. Its children describe the result by slot numbers:
--     Loading has `plan` itself, Settled says which slots need no loading, Pages describes the pages
--     and Loop follows the loop, Validity and Whole have the exported methods.
--   Application/Fills: the fills that callers of the kline service share (`join`, `attempt`, `wait` of
--     internal/application/kline/fill.go), their budgets and the limits on both. Steps: the critical
--     sections in any order; Capacity and Callers are invariants of the runs.
--   Application/Service: `read`, `load` and the turns of `Get`, over an outside that answers. Load has
--     the loops of `load`, on fuel, Complete and Ends say that they end and what success means;
--     Round has a turn of `Get`, Checks the checks before it, Slots the slot it holds.
--   Application/Retention: internal/application/kline/retention.go over the candle repository; Cleaned
--     says what a pass leaves.
--   Application/Snapshots: a refresh of tickers, statistics and instruments (service.go of
--     internal/application/ticker, marketstats and instrument) over their repositories. Readers:
--     their filters and internal/application/ticker/read_model.go; Published says what a refresh of
--     tickers leaves.
--   Application/Refreshes: `refreshes.merge` of internal/application/kline/service.go and
--     `madeProgress` of internal/application/kline/fill.go.
--   Storage/Klines: internal/infrastructure/storage/memory/kline.go: the state, and the helpers of
--     its methods; Upsert has `UpsertMany`, Read has `GetRange`, `DeleteBefore` and `CandleCounts`.
--     `find` (Merge) is the abstract view of the rows: a slot of a series and what it holds. The
--     other children compare the methods with this view.
--   Storage/Snapshots: what ticker.go, market_stats.go and instrument.go of
--     internal/infrastructure/storage/memory do alike, over an interface of keys and rows; Kinds has
--     the three repositories, Replace is about `ReplaceSnapshot`. Domain/Snapshot: their rows.
--   Config: the records of internal/config/config.go. Its children: Defaults; Validate, Budgets, Local
--     and Observed have the checks of internal/config/validate.go; Shares and Capacity are about
--     what the checks promise.
--   Upstream: the data of internal/infrastructure/exchange/upstream. Usage: `prune`, `usage` and
--     `budgetReady` of usage.go and deferral.go. Prune, Spent, Expiry and Percent compare them with
--     plainer descriptions.
--   Upstream/Admission: `ready` and the state of the controller (controller.go). Queue: `acquire` in
--     two parts (`enter`, and one `turn` for each round of its loop), `selected`, `release`,
--     `Cooldown`, and `Begin` of operation.go. Flight: `rollback` and `dispatch` of transport.go,
--     `usageHeaders` of usage.go and the windows that `updateCatalog` of catalog.go leaves. Steps:
--     all these as a step relation with a clock. Pruned and Rounds say what a round can do; Fits
--     and Budget are about one scope, Slots and Flights about the histories; Balanced, InFlight,
--     FlightBalanced, FlightBudget and Budgets are about invariants of the steps.
--   Upstream/Price: `resolveCost` of cost.go; Priced compares it with the greatest costs of `New`.
--   Upstream/Retry: the back-off of failed cycles (retry.go).
--   Normalization: internal/infrastructure/exchange/normalization: the numbers and fields of upstream
--     rows. Current has current.go, Candles has kline.go; Ordered and Pages are about a page of
--     candles, Printed compares what `Row.Decimal` accepts with what Transport/Rows
--     prints.
--   Transport: `mapError` of internal/transport/grpc/errors.go; Codes has the codes, Exposed says what a
--     client may see of an error. Rows: conversion.go; Fit is about its cap.
--   Upstream/Bootstrap: `New` and `addScope`, and the runs from the controller they make.
--
-- Choices. A method of the repository runs under its lock, so that it is one step from a state to
-- a state; a method that can fail gives the state it leaves beside its result, since a failed
-- `DeleteBefore` leaves a changed one. A Go map is iterated in the order of the list that models
-- it; where the order could be seen, the rows are sorted after. Decimals are a parameter `D`,
-- since their package is not part of the repository. Times before the absolute zero year are not
-- modelled. Every loop is a recursion on a list or on the number of slots left, so that no fuel is
-- used, but for the binary search of `budgetReady`, whose fuel is one more than the number of
-- expiries that it searches, and the loop of `load`, for which `MaxAttempts` and one turns are
-- enough, since a turn that goes on has used an attempt. Sizes that a constructor holds to be
-- positive are numbers, and 0 stands for every refused one; so do the numbers of the settings. The
-- constructor of `other` strings (Domain/Names) stands for non-empty ones where emptiness is
-- tested. Packages net, net/url, path, strconv, strings, encoding/json, the decimals and protobuf
-- are parameters where their answers matter.
--
-- Not modelled: the loops that repeat the refreshes of snapshots; what a fill of the kline service
-- reports when it completes, its timeout and the singleflight group; of the admission control the
-- decoding of the catalogs and of the headers that refresh limits and usage, its diagnostics, and
-- the HTTP transport around it; the adapters of the exchanges, the servers and handlers of the
-- transports, the loading of the configuration, the wiring and the observability code; the copies
-- of decimals and pointers, which keep values apart in memory and change none; the text of error
-- messages but those that the transport sends.
pub mod Prelude
pub mod Errors
pub mod Domain
pub mod Application
pub mod Config
pub mod Storage
pub mod Upstream
pub mod Normalization
pub mod Transport
