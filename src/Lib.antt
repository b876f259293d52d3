-- ===== src/Lib.antt =====
-- A verification library for the Purrlington Island resort.
--
-- The program is a handful of services behind a gateway, with a React web app. Modelled are its
-- TypeScript parts that keep state and decide things, and how they meet: the hotel asks the airport
-- and posts to the hub, the hub writes events to its listeners, the web app reads them.
--
-- * Hub (services/broadcast/src): the event hub. `Hub/Types`, `Hub/Schemas`, `Hub/ServiceAuth`,
--   `Hub/EventBus` and `Hub/Routes` model types.ts, schemas.ts, serviceAuth.ts with adminAuth.ts,
--   eventBus.ts, and app.ts with routes/*.ts and validate.ts. `publish`, `post`, `listen` and
--   `serve` are the handlers; `run` serves a list of calls in the order in which Node's event loop
--   takes them: a handler of this service never waits, so calls do not interleave. Proofs are in
--   `Hub/Access`, `Hub/Delivery`, `Hub/Privilege`, `Hub/Publishing`, `Hub/Hearing` and
--   `Hub/Streams`, whose
--   `accepted` reads off a call which event the hub takes from it.
-- * Hotel (services/hotel/src): `Hotel/Types` has the rows and the DTOs, `Hotel/Clients`
--   airport/airport.service.ts and broadcast/broadcast.service.ts, `Hotel/Reservations`
--   reservation/reservation.service.ts (`create` is `choose_room`, then `book`; `find_by_id`,
--   `find_active_by_guest_id`, `cancel`), `Hotel/Rooms` rooms/rooms.service.ts and
--   simulation/simulation-clock.ts. `execute_all` serves commands one after another. In the service
--   `create` waits between the search and the insert; there `choose_room` and `book` are taken
--   apart. `Hotel/Seed` has the rooms of services/hotel/prisma/seed.ts. Proofs are in
--   `Hotel/Calendar`, `Hotel/Booking`, `Hotel/Selection`, `Hotel/FirstRoom`,
--   `Hotel/Creating`, `Hotel/Cancelling`,
--   `Hotel/Announcing`, `Hotel/Occupancy`, `Hotel/Capacity`, `Hotel/Stated` and
--   `Hotel/Clearance`.
-- * Web (frontend/src): `Web/Types` has types/broadcast.ts and types/guest.ts, `Web/EventsStore`
--   stores/events-store.ts, `Web/IslandEvents` features/broadcast/lib/island-event.ts with the
--   message handler of hooks/use-broadcast.ts, `Web/Connection` the rest of that hook, as steps on
--   the browser's signals, `Web/Session` stores/session-store.ts, and `Web/Chat`
--   features/parrot/hooks/use-parrot-chat.ts with use-parrot-history.ts. `Web/Wire` joins the hub to
--   the web app: what `JSON.stringify` writes of an event is what the handler gets. Proofs are in
--   `Web/Feeds`, `Web/FeedInvariants` and `Web/ChatTurns`, and at the end of the other files.
--   `Web/Theme` has components/theme-provider.tsx, with proofs in `Web/Shown` and `Web/ThemeKept`;
--   `Web/Zones` the markers and panels of features/map and the panels of the other features, with
--   the gates of `Web/Gates`; `Web/ApiErrors` the messages of lib/api-client.ts; and
--   `Web/ReservationForm` the form of features/hotel with lib/simulation-time.ts, and
--   `Web/Reservations` what its hooks do with the hotel's answers. `Web/RoomSummary`
--   is the administrators' summary of the rooms. `Web/Pages` has app/router.tsx
--   with the pages behind it and the login of administrators, followed in `Web/Admission`;
--   `Web/Announcements` the composer of features/broadcast. `Web/ZoneRegistry` is
--   features/map/zone-registry.ts and `Web/Markers` the pulse of a zone's marker, with `Web/Pulses`;
--   `Web/GoatFarm` the popup of features/goat-farm, with `Web/GoatClock`,
--   `Web/GoatCountdown` and `Web/GoatUnanswered`;
--   `Web/Avatars` lib/avatar.ts, with `Web/AvatarHash` and `Web/AvatarTraits`; and `Web/GuestTable`
--   data/guests.json.
-- * Simulation (frontend/src/features/simulation): `Simulation/Actions` has actions.ts and
--   `Simulation/Machine` machine.ts, on clients of the services that are a parameter.
--   `Simulation/Journeys` follows a guest's stages, `Simulation/Requests` what the hotel is asked.
--   `Simulation/Generator` has hooks/use-traffic-generator.ts: timers and the steps that wait for an
--   answer, as events in any order; `Simulation/Loops` counts them, `Simulation/Interleaving` follows
--   the guests' states. `Simulation/SyntheticGuests` is data/synthetic-guests.ts, and
--   `Simulation/GuestNames` frontend/src/lib/guest.ts over both tables. In the generator a step
--   reads its guest's state when it begins, and its requests and its write are one event.
-- * Quest (frontend/src/features/kiki-burger-quest and octopus-oracle): `Quest/Oracle` has the
--   trials and the oracle's panel, `Quest/Burger` the quest around it; clicks and timeouts are
--   events, and a button counts where it is shown. Proofs are in `Quest/Trials`, `Quest/Journey` and
--   `Quest/Progress`.
-- * Mock (frontend/src/mocks/handlers/beach.ts): `Mock/Store` has the handlers on the session's
--   storage; `Mock/Desk` is what they promise, without storage, and `Mock/Refinement`, on
--   `Mock/Board`, compares the two. `Mock/Balance` counts places on the lemmas of `Mock/Places`;
--   `Mock/Actions` puts the buttons of features/beach/components/activities-list.tsx and
--   activity-action.tsx against it, their requests handed to the handlers: the paths of the app's
--   requests, under /api/beach, are none that the mock has a handler for.
-- * `Island` joins the hotel to the hub, the requests of publishHotelEvent as the hub takes them;
--   `Island/Stays` joins the web app's reservation form to the hotel, and `Island/Clocks` the days of
--   its dates to the hotel's clock. `Island/CheckIn` runs a guest's page against the hotel, with
--   `Island/Backing`, `Island/Truthful` and `Island/CheckedIn`; `Island/Announcements` takes an announcement from the
--   login to the hub, `Island/Seen` a reservation from the hotel to the map of a guest, and
--   `Island/RoomSummary` the hotel's reservations to the administrators' summary of its rooms.
--
-- What is not under the sources is a parameter. `Values` has the JSON values that cross the
-- services' borders; `Values/Schema` has zod's schemas as data with what it is for a value to be
-- accepted, and the record `Zod` with what the code relies on of safeParse. `Hotel/Prisma` is the
-- database client as a record of operations with their documented behaviour, which the list
-- database of `Hotel/ListDatabase` fills, its rooms in the order of `Hotel/IdOrder`.
-- Answers of `fetch`, generated ids, the clock and the
-- headers of a request are arguments; so are toLowerCase, and the String that writes a value as a
-- text. date-fns is the record `Calendar`, filled by UTC days in `Island/FormExamples`. A query of
-- react-query is what it has loaded; a disabled one has loaded nothing. Where the code changes its
-- cache the client is the record `QueryClient`, filled by a function in `Island/CheckInExamples`. The
-- database's table of rooms is the record `RoomTable` where it is seeded.
--
-- Days are integers and prices, counts and milliseconds natural numbers: the values that these
-- services accept; where a row is to be stored for certain, that they fit a column of 32 bits is a
-- hypothesis. The hash of an avatar is on 32 bits with a sign, its conversions written out. The
-- time scale is a natural number of thousandths. Every loop is over a list, so
-- no fuel is needed; the one bound of the program itself, 100 events in a feed, is `max_events`.
--
-- Not modelled: the services in other languages, NestJS's and Express's wiring, logging, and the
-- web app's markup, API clients, remaining forms (activities, arrivals) and the mutations of the query
-- cache behind them, which only refetch. The third-party
-- components of frontend/src/components/ui and the generated frontend/public/mockServiceWorker.js
-- are left aside.
pub mod Prelude
pub mod Values
pub mod Hub
pub mod Hotel
pub mod Web
pub mod Simulation
pub mod Island
pub mod Quest
pub mod Mock
