-- ===== src/Oauth.antt =====
-- internal/oauth: the sign-in flows that end in an account, and the refresh of its tokens.
pub mod Flow
pub mod Coordinator
pub mod Requests
pub mod Machine
pub mod DevicePoll
pub mod Refresh
pub mod Persist
