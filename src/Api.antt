-- ===== src/Api.antt =====
-- src/api/http_server.cpp: the decisions of the HTTP API. Routing, parsing and printing of JSON
-- belong to cpp-httplib and nlohmann/json.
pub mod Carried
pub mod Json
pub mod SecretNames
pub mod Masking
pub mod Access
pub mod Cookies
pub mod Granted
pub mod Names
pub mod Served
pub mod Settings
pub mod Stored
pub mod Sensors
pub mod Reloads
pub mod Bodies
pub mod Targets
pub mod Users
pub mod Logins
