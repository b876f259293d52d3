-- ===== src/Web.antt =====
-- The web app (frontend): the parts that keep state and decide things, without their rendering.
pub mod Types
pub mod EventsStore
pub mod Feeds
pub mod FeedInvariants
pub mod IslandEvents
pub mod Wire
pub mod Connection
pub mod GuestTable
pub mod Session
pub mod Chat
pub mod ChatTurns
pub mod Theme
pub mod Shown
pub mod ThemeKept
pub mod Zones
pub mod Gates
pub mod Reservations
pub mod RoomSummary
pub mod ZoneRegistry
pub mod Markers
pub mod Pulses
pub mod GoatFarm
pub mod GoatClock
pub mod GoatCountdown
mod GoatUnanswered
pub mod Avatars
pub mod AvatarHash
pub mod AvatarTraits
pub mod Announcements
pub mod Pages
pub mod Admission
pub mod ReservationForm
pub mod ApiErrors
mod ThemeExamples
mod PanelExamples
mod MapExamples
mod GoatExamples
mod AvatarExamples
mod Examples
