-- ===== src/Dashboard.antt =====
-- frontend/src: the logic of the dashboard's pages.
pub mod Screen
pub mod Studio
pub mod Filters
pub mod Pages
pub mod Theme
pub mod Times
pub mod Queries
pub mod Mutations
pub mod Csv
pub mod TimedQueries
pub mod WidgetData
pub mod Sql
pub mod Sessions
pub mod Related
pub mod Alerts
pub mod Overview
pub mod Services
pub mod Settings
pub mod ApiKeys
pub mod Team
pub mod Events
pub mod Layout
pub mod Insights
pub mod Retention
pub mod Slug
pub mod SignIn
pub mod WallboardQueries
pub mod Tv
pub mod Reports
pub mod Picker
mod PushKey
pub mod Push
mod Examples
mod StateExamples
mod SessionExamples
mod WidgetExamples
mod ScreenExamples
mod PageExamples
