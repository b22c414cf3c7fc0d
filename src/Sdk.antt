-- ===== src/Sdk.antt =====
-- tools/claude_agent_sdk_tool.py: the developer and the tester, each an invocation of the Claude
-- Agent SDK. Parameters: the SDK's client, the template engine, and the printing of a spec as JSON.
pub mod Messages
pub mod Invocation
pub mod Session
pub mod Aged
pub mod Resume
pub mod Notes
mod Tests
