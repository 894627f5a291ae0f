-- ===== src/Lib.antt =====
-- Verification of the TypeScript code of BatAudit, an audit log with SDKs for servers and browsers
-- and a dashboard. Definitions translate the source; theorems are stated about them.
--
-- The program's parts, and where they are modelled:
--
--   sdks/node/src            An application's server reports each request to the writer.
--     client.ts              Sdk.Network, Sdk.Pending, Sdk.Node.Client: `_sendWithRetry` is
--                            send_with_retry, `send` and `flush` are send and flush of Sdk.Pending.
--     types.ts               Sdk.Node.Types.
--     middleware/express.ts  Sdk.Node.Express: handle is a request from its start to `finish`.
--     middleware/fastify.ts  Sdk.Node.Fastify: on_request, on_send and on_response are the hooks.
--     lambda.ts              Sdk.Node.Lambda: wrap is the wrapped handler.
--   sdks/browser/src         A page reports the requests that it makes.
--     client.ts, types.ts    Sdk.Browser.Client, Sdk.Browser.Types.
--     interceptors/fetch.ts  Sdk.Browser.Fetch: bat_audit_fetch takes the place of `fetch`.
--     interceptors/xhr.ts    Sdk.Browser.Xhr: open_xhr and send_xhr take the place of the methods.
--     index.ts               Sdk.Browser.Init: init and unpatch, on the globals of the page.
--   frontend/src             The dashboard.
--     lib/auth.ts            Web.Auth, over the local storage of Web.Storage.
--     lib/api.ts             Web.Api: fetch_with_auth.
--     http                   Web.Clients: a function for each operation of the server. Endpoint
--                            collects those that need a signed-in user; two of them,
--                            in Unchecked, do not look at the status of the reply.
--     http/wallboard.ts      Web.Wallboard: the tokens of a wallboard and their renewal.
--     queries                Dashboard.Queries: the keys and the requests of cached queries;
--                            Dashboard.Mutations: the calls that invalidate them.
--                            Dashboard.TimedQueries: the queries that depend on the time.
--                            Dashboard.WallboardQueries: the queries of a wallboard.
--     http/studio.ts         Web.Clients.Studio, and applyVars in Web.Clients.Template.
--     routes, components     Dashboard.SignIn (login, invite, the guard of the pages, signing out),
--                            Dashboard.Studio, Dashboard.Reports and Dashboard.WidgetData
--                            (the report studio),
--                            Dashboard.Filters and Dashboard.Picker (the event list and its time
--                            range picker), Dashboard.Sql and Dashboard.Csv (running
--                            and downloading a query),
--                            Dashboard.Push (push notifications), Dashboard.Tv (the page of a
--                            wallboard), Dashboard.Slug (the slug of a project), Dashboard.Pages
--                            (pagination bar, carousel), Dashboard.Times, Dashboard.Overview and
--                            Dashboard.Services (filters, export and table of services of the event
--                            list), Dashboard.Related (the events related to an alert),
--                            Dashboard.Sessions (the sessions page),
--                            Dashboard.Settings (monitors, wallboards, webhooks, members,
--                            users).
--                            What pages show, and the actions that they offer, are screens
--                            (Dashboard.Screen): Dashboard.ApiKeys (the keys and members of the
--                            projects), Dashboard.Team (members, users), Dashboard.Events (an event,
--                            the health of the server), Dashboard.Layout (sidebar and header),
--                            Dashboard.Insights, Dashboard.Retention, Dashboard.Alerts (the
--                            anomalies),
--                            Dashboard.Sessions.View, Dashboard.Overview.Feed (the event
--                            list), Dashboard.Tv.Screens (a wallboard),
--                            Dashboard.Studio.View and Dashboard.Studio.Editor (the report studio),
--                            Dashboard.Sql.View (the SQL page), Dashboard.Settings.MonitorView.
--     lib/theme.ts           Dashboard.Theme.
--   frontend/public/sw.js    Dashboard.Push.ServiceWorker: the service worker, which shows what is
--                            pushed.
--
-- How they interact: the Express, Fastify and Lambda integrations hand events to the client, which
-- posts them; so do the two interceptors of the browser. In the dashboard the queries call the
-- operations of http, which go through fetchWithAuth, which reads and clears the session of
-- lib/auth.ts. An action of the dashboard is a function of the server and of the browser's state
-- (storage, location, clock, requests made) that yields a result or a thrown error with the new
-- state: Web.Http has the type and its do notation.
--
-- Arguments of the model: the network's replies, the clock, random ids, the parsers and encoders of
-- the platform (Web.Platform, Sdk.Browser.Fetch.Platform) and `toISOString` are parameters. Where a
-- theorem relies on one of them, such as numbers that are read back as they were written, the
-- hypothesis says so.
--
-- Fuel: send_with_retry takes fuel and yields `none` where it runs out. There are three retries, and
-- Delivery shows that fuel 4 is enough whatever the network answers.
--
-- Numbers are natural: times are whole milliseconds, and the clock is not taken to go back within
-- one request. A property that may be absent is an Option.
--
-- Not modelled: the backend (cmd, internal), which is Go; the boxes, icons and styles of pages, the
-- screens of those not named above, and the libraries they use (React, the router, the query client,
-- the grid); events that JSON.stringify rejects, and headers that `new Headers` rejects, joins or
-- trims; response types of the dashboard, whose
-- replies are JSON values; the forms of the settings but for those named above. A page's handler
-- is run to its end before another one begins, but for the queries of the studio's widgets, and its
-- exceptions are values.
mod Prelude
pub mod Web
pub mod Dashboard
pub mod Sdk
