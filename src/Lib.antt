-- ===== src/Lib.antt =====
-- The Canada Post shipping plugin: a gRPC service that offers Canada Post rates, makes labels and refunds, and an
-- HTTP service with its settings page.
--
-- A rate request makes a snapshot of addresses, parcel and customs, which is kept in Redis under the
-- rate's id. A label request loads it, merges the option values of both requests, checks them twice, first as values
-- against the business rules and then as the options built from them, checks the addresses, sends the shipment to
-- Canada Post, and stores the label. The modules and their code:
--
-- * Options (service/label_options.go, service/canada_post_options.go): Values reads option values
--   (`parseAmount`, `resolveMappedValue`, `validateCustomInfoMapValues`), Rules has the business rules
--   (`validateCanadaPostOptionRules`), Build the options of rates and labels (`buildGetRatesOptions`,
--   `buildCreateLabelOptions`, `dedupeShipmentOptions`, `mergeShipmentOptions`), Check the final check
--   (`validateOptions`). Check/Spec and Permitted specify the two checks; Accepted and its children join them.
-- * Snapshot, Snapshot/Customs (service/rate_snapshot_store.go, service/shipping_service.go): the records of a snapshot.
-- * Redis, Redis/Decimal, Redis/Message (service/rate_snapshot_store.go): the protocol on bytes; Redis/Client: the client's
--   `do`, `set` and `get` against a parameter for the server, and `Save` and `Load` of the snapshot store.
-- * Currency (service/shipping_service.go): currencies, conversion, countries, and the options of a snapshot.
-- * Shipment (service/shipping_service.go, service/canada_post_types.go): Phone, Postal and Validate have the checks
--   (`validateShipmentSnapshot`, `validateCustoms`), Payload the parts of the request
--   (`buildShipmentCustoms`), Request the request (`buildShipmentRequestFromSnapshot`, `createShipmentFromSnapshot`).
-- * Rates (service/shipping_service.go): the quotes of a reply (`mapAPIRates`). Rates/Request, Rates/Caches, Rates/Order and
--   Rates/Fetch: `fetchRatesFromAPI` with the maps that the process keeps as a state, and `GetShippingRate`
--   (service/get_shipping_rate.go).
-- * Client, Client/Refund, Client/Offices (service/canada_post_client.go): the calls of Canada Post and their replies.
-- * Refund (service/refund_shipment.go, service/refund_label.go): `RefundShipment`, with the calls of the orders service.
-- * Label, Label/Handler (service/create_label.go): the handler `CreateLabel`, its effects as a list of events.
-- * Sessions (protocol/http/app.go): one-time tokens; a step for each method, as each holds the mutex.
-- * Uninstall (service/plugin_uninstall.go): `UninstallPlugin`, its attempts and their loop.
-- * Database/Cleanup (database/oauth.go): `CleanupPluginData`, MySQL's transactions a parameter; Database/Labels
--   (database/store.go): `LoadLabelRecordsPage` and the conditions of its query; UninstallPage
--   (protocol/http/uninstall_handler.go): `HandleUninstall`, on Sessions, Uninstall and Database/Cleanup.
-- * SettingsPage, SettingsPage/Values, SettingsPage/Forms, SettingsPage/Show, SettingsPage/Handler (protocol/http/handlers.go):
--   `settingsHandler`, its checks and forms, its page, and `redirectToOAuth`.
-- * Admin, Admin/Codes, Admin/Ensure (service/admin_shipping_methods.go): `EnsureCanadaPostAdminShippingMethods` against a
--   service with a state; Admin/Codes/Order is about the selection sort of the plugin codes.
-- * Offices (service/post_office_types.go, service/post_office_service.go): texts of post offices and their lookup;
--   Offices/Stored: the offices that are stored for a client, asked of Canada Post where there are none.
-- * Text, Dict, Float64 and Prelude: Go's strings, maps, floats and errors; Tests: runs on concrete data.
--
-- Texts are lists of code points, and case mapping is exact on ASCII; the text of an error of Redis keeps
-- printable ASCII only. Floats are an interface, `Float64`: the
-- theorems hold for all its implementations, with laws of IEEE 754 as hypotheses where one is needed. Lengths and
-- times are natural numbers; the wrap-around of uint32 is written out. The readers of Redis replies
-- have fuel for the depth of arrays, one more than the length of the input, of which each level takes a byte.
--
-- Database, net/http, disk, clock and random numbers are parameters, or events where they are written to; the gRPC services
-- of other programs are parameters too, for the shippings service with a state of its own.
-- Not modelled: the older option and shipment builders, SQL, the texts of HTTP pages, OAuth and logging.
pub mod Prelude
pub mod Text
pub mod Dict
pub mod Float64
pub mod Options
pub mod Offices
pub mod Snapshot
pub mod Currency
pub mod Database
pub mod SettingsPage
pub mod UninstallPage
pub mod Client
pub mod Refund
pub mod Admin
pub mod Shipment
pub mod Sessions
pub mod Redis
pub mod Rates
pub mod Label
pub mod Tests
pub mod Uninstall
